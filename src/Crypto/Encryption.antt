-- ===== src/Crypto/Encryption.antt =====
-- crypto/crypto.go: `createHash`, `Encrypt` and `Decrypt`. MD5, AES-GCM and the random reader of the
-- standard library are a parameter.
use setinstone.Prelude.{
  ℕ, ◌*◌, ◌<◌, ◌≡◌, ◌≢◌, ◌↔◌, false, refl, sym, ◌∙◌, [], ◌∷◌, ◌++◌, Option, none, some, inl, inr,
  arith, Bytes, ltb, if◌then◌else◌, Bool-cases, length, take, drop, take-length_append,
  drop-length_append, length-append, length-take,
}
use setinstone.Prelude.Outcome.{Outcome, ok, err, panic, ◌>>=◌}
use setinstone.Hex.{encode_to_string}

-- crypto/md5, aes.NewCipher, cipher.NewGCM (of an interface value that may be nil), the methods
-- NonceSize, Seal (without its first argument) and Open of an AEAD, and io.ReadFull of rand.Reader
-- with the randomness that it reads
pub record Aes (Block Gcm : Type 0) : Type 0 where
  pub md5 : Bytes → Bytes
  pub new_cipher : Bytes → Outcome Block
  pub new_gcm : Option Block → Outcome Gcm
  pub nonce_size : Gcm → ℕ
  pub seal : Gcm → Bytes → Bytes → Bytes
  pub open_sealed : Gcm → Bytes → Bytes → Outcome Bytes
  pub read_full : ℕ → ℕ → Outcome Bytes

pub record AesLaws {Block Gcm : Type 0} (a : Aes Block Gcm) : Type 0 where
  pub md5_length : (s : Bytes) → length (a.md5 s) ≡ 16
  -- a key of 32 bytes is one of AES-256
  pub new_cipher_ok : (key : Bytes) → length key ≡ 32 → (b : Block) × (a.new_cipher key ≡ ok b)
  -- AES has blocks of 16 bytes, and NewGCM gives the standard nonce size
  pub new_gcm_ok : (b : Block) → (g : Gcm) × (a.new_gcm (some b) ≡ ok g)
  pub nonce_size_standard : (b : Block) (g : Gcm) → a.new_gcm (some b) ≡ ok g → a.nonce_size g ≡ 12
  pub read_full_length : (seed n : ℕ) (s : Bytes) → a.read_full seed n ≡ ok s → length s ≡ n
  pub open_seal :
      (g : Gcm) (nonce text : Bytes)
      → length nonce ≡ a.nonce_size g
      → a.open_sealed g nonce (a.seal g nonce text) ≡ ok text
  -- Open panics on a nonce of another length only
  pub open_total :
      (g : Gcm) (nonce sealed : Bytes)
      → length nonce ≡ a.nonce_size g
      → a.open_sealed g nonce sealed ≢ panic

-- An error that the code turns into a panic.
unfoldable pub must {ℓ} : {A : Type ℓ} → Outcome A → Outcome A
must (ok a) = ok a
must (err e) = panic
must panic = panic

-- `block, _ := ...`: the block is nil where there is an error.
unfoldable pub drop_error {ℓ} : {A : Type ℓ} → Outcome A → Outcome (Option A)
drop_error (ok a) = ok (some a)
drop_error (err e) = ok none
drop_error panic = panic

module _ {Block Gcm : Type 0} (a : Aes Block Gcm) where
  unfoldable pub create_hash : Bytes → Bytes
  create_hash key = encode_to_string (a.md5 key)

  unfoldable pub encrypt : ℕ → Bytes → Bytes → Outcome Bytes
  encrypt seed text passphrase = do
    block ← drop_error (a.new_cipher (create_hash passphrase))
    gcm ← must (a.new_gcm block)
    nonce ← must (a.read_full seed (a.nonce_size gcm))
    ok (nonce ++ a.seal gcm nonce text)

  -- `data[:nonceSize]` and `data[nonceSize:]`: the second is out of range on shorter data.
  unfoldable pub open_text : Gcm → Bytes → Outcome Bytes
  open_text gcm text =
      let n = a.nonce_size gcm in
      if ltb (length text) n then panic else a.open_sealed gcm (take n text) (drop n text)

  unfoldable pub decrypt : Bytes → Bytes → Outcome Bytes
  decrypt text passphrase = do
    block ← must (a.new_cipher (create_hash passphrase))
    gcm ← must (a.new_gcm (some block))
    open_text gcm text

length-encode_to_string : (s : Bytes) → length (encode_to_string s) ≡ 2 * length s
unfolding encode_to_string
length-encode_to_string [] = refl
length-encode_to_string (c ∷ s) = omega (arith, length-encode_to_string s)

module _ {Block Gcm : Type 0} (a : Aes Block Gcm) (laws : AesLaws a) where
  -- Every passphrase makes a cipher.
  cipher_of :
      (passphrase : Bytes)
      → (b : Block) × (g : Gcm) × (a.new_cipher (create_hash a passphrase) ≡ ok b)
        × (a.new_gcm (some b) ≡ ok g)
        × (a.nonce_size g ≡ 12)
  unfolding create_hash
  cipher_of passphrase =
      let key : Bytes = encode_to_string (a.md5 passphrase) in
      let (b, cipher) =
        laws.new_cipher_ok key
          (omega (arith, length-encode_to_string (a.md5 passphrase), laws.md5_length passphrase)) in
      let (g, made) = laws.new_gcm_ok b in (b, g, cipher, made, laws.nonce_size_standard b g made)

  open_text-seal :
      (g : Gcm) (nonce text : Bytes)
      → length nonce ≡ a.nonce_size g
      → open_text a g (nonce ++ a.seal g nonce text) ≡ ok text
  unfolding open_text
  open_text-seal g nonce text h =
      let long : ltb (length (nonce ++ a.seal g nonce text)) (a.nonce_size g) ≡ false =
        ground (arith, length-append nonce (a.seal g nonce text)) in
      rw (
        long,
        take-length_append (a.nonce_size g) nonce (a.seal g nonce text) h,
        drop-length_append (a.nonce_size g) nonce (a.seal g nonce text) h,
        laws.open_seal g nonce text h,
      )

  decrypt-open_text :
      (text passphrase : Bytes)
      → (g : Gcm) × (a.nonce_size g ≡ 12) × (decrypt a text passphrase ≡ open_text a g text)
  unfolding decrypt must
  decrypt-open_text text passphrase =
      let (b, g, cipher, made, n) = cipher_of passphrase in (g, n, rw (cipher, made))

  -- When the random reader delivers a nonce of the standard size, `Encrypt` succeeds with any
  -- passphrase and puts the nonce in front, and `Decrypt` of its result with the same passphrase
  -- returns the data.
  pub decrypt-encrypt :
      (seed : ℕ) (nonce text passphrase : Bytes)
      → a.read_full seed 12 ≡ ok nonce
      → (sealed : Bytes) × (encrypt a seed text passphrase ≡ ok sealed)
        × (take 12 sealed ≡ nonce)
        × (decrypt a sealed passphrase ≡ ok text)
  unfolding encrypt decrypt must drop_error
  decrypt-encrypt seed nonce text passphrase h =
      let (b, g, cipher, made, n) = cipher_of passphrase in
      let size : length nonce ≡ 12 = laws.read_full_length seed 12 nonce h in
      (
        nonce ++ a.seal g nonce text,
        rw (cipher, made, n, h),
        take-length_append 12 nonce (a.seal g nonce text) size,
        rw (cipher, made, open_text-seal g nonce text (omega arith)),
      )

  open_text_panic_iff :
      (g : Gcm) (text : Bytes) → (open_text a g text ≡ panic) ↔ (length text < a.nonce_size g)
  unfolding open_text
  open_text_panic_iff g text = elim (Bool-cases (ltb (length text) (a.nonce_size g))) [
    | inl e ↦ (λ _. ground arith, λ _. rw e refl)
    | inr e ↦ (
      (λ h. absurd (
          laws.open_total g (take (a.nonce_size g) text) (drop (a.nonce_size g) text)
            (ground (arith, length-take (a.nonce_size g) text)) (cc (h, e)))),
      (λ h. absurd (ground arith)),
    )
  ]

  -- `Decrypt` panics exactly on data that is shorter than a nonce, whatever the passphrase.
  decrypt_panic_iff :
      (text passphrase : Bytes) → (decrypt a text passphrase ≡ panic) ↔ (length text < 12)
  decrypt_panic_iff text passphrase =
      let (g, n, e) = decrypt-open_text text passphrase in
      let (to, from) = open_text_panic_iff g text in
      (λ h. omega (arith, to (sym e ∙ h)), λ h. e ∙ from (omega arith))
