-- ===== src/Address/Pem.antt =====
-- address/keypair.go: `NewKeyPair`, `ToPem` and `NewFromPem`. The generation of keys and the formats
-- of crypto/x509 and encoding/pem are a parameter.
use setinstone.Prelude.{ℕ, ◌≡◌, ◌≢◌, sym, ap, ◌∙◌, true, Option, some, Bytes, codes}
use setinstone.Prelude.Outcome.{Outcome, ok, ◌>>=◌, >>=-eq-ok}
use setinstone.Primitives.{EcdsaKey, Primitives}
use setinstone.Crypto.RoundTrip.{IsKey}
use setinstone.Address.{KeyPair}
use setinstone.Address.Keys.{of_ecdsa_key, to_ecdsa_private_key, to_ecdsa_private_key-of_ecdsa_key}

-- ecdsa.GenerateKey on P-256, x509.MarshalECPrivateKey, ParseECPrivateKey, EncryptPEMBlock (of a
-- type, bytes and a password, with the cipher PEMCipherAES256) and DecryptPEMBlock (of a block that may
-- be nil), pem.EncodeToMemory and pem.Decode. `Block` is *pem.Block. The first numbers are the randomness.
pub record Pem (Block : Type 0) : Type 0 where
  pub generate_key : ℕ → Outcome EcdsaKey
  pub marshal_private_key : EcdsaKey → Outcome Bytes
  pub parse_private_key : Bytes → Outcome EcdsaKey
  pub encrypt_block : ℕ → Bytes → Bytes → Bytes → Outcome Block
  pub decrypt_block : Option Block → Bytes → Outcome Bytes
  pub encode_to_memory : Block → Bytes
  pub decode : Bytes → Option Block × Bytes

pub record PemLaws {Block : Type 0} (p : Primitives) (f : Pem Block) : Type 0 where
  -- the secret is positive, and the point is that of the secret, on a curve over 256 bits
  pub generated :
      (seed : ℕ) (k : EcdsaKey) → f.generate_key seed ≡ ok k → IsKey p k × (k.secret ≢ 0)
  -- the format has the secret, and its reader computes the point
  pub parse_marshal :
      (k : EcdsaKey) (s : Bytes)
      → p.is_pair k ≡ true
      → f.marshal_private_key k ≡ ok s
      → f.parse_private_key s ≡ ok k
  pub decrypt_encrypt :
      (seed : ℕ) (kind s password : Bytes) (b : Block)
      → f.encrypt_block seed kind s password ≡ ok b
      → f.decrypt_block (some b) password ≡ ok s
  pub decode_encode :
      (seed : ℕ) (kind s password : Bytes) (b : Block)
      → f.encrypt_block seed kind s password ≡ ok b
      → (f.decode (f.encode_to_memory b)).0 ≡ some b

abbrev pem_type : Bytes
pem_type = codes "ECDSA PRIVATE KEY"

module _ {Block : Type 0} (f : Pem Block) where
  unfoldable pub new_key_pair : ℕ → Outcome KeyPair
  new_key_pair seed = do private ← f.generate_key seed; ok (of_ecdsa_key private)

  -- The rest behind the block is not read.
  unfoldable pub new_from_pem : Bytes → Bytes → Outcome KeyPair
  new_from_pem pem_encoded password = do
    x509_encoded ← f.decrypt_block (f.decode pem_encoded).0 password
    private ← f.parse_private_key x509_encoded
    ok (of_ecdsa_key private)

  unfoldable pub to_pem : ℕ → Bytes → KeyPair → Outcome Bytes
  to_pem seed password k = do
    x509_encoded ← f.marshal_private_key (to_ecdsa_private_key k)
    block ← f.encrypt_block seed pem_type x509_encoded password
    ok (f.encode_to_memory block)

-- `Clone` of a pair, whose strings are values.
unfoldable pub clone_pair : KeyPair → KeyPair
clone_pair k = record { private_key = k.private_key; public_key = k.public_key }

module _ {Block : Type 0} (p : Primitives) (f : Pem Block) (laws : PemLaws p f) where
  -- What `NewKeyPair` returns is the text of a key.
  pub new_key_pair-IsKey :
      (seed : ℕ) (k : KeyPair)
      → new_key_pair f seed ≡ ok k
      → (key : EcdsaKey) × (k ≡ of_ecdsa_key key)
        × IsKey p key
        × (key.secret ≢ 0)
        × (to_ecdsa_private_key k ≡ key)
  unfolding new_key_pair
  new_key_pair-IsKey seed k h =
      let (key, made, e) =
        >>=-eq-ok (f.generate_key seed) (λ key. ok (of_ecdsa_key key)) {b = k} h in
      let (is_key, positive) = laws.generated seed key made in
      let same : k ≡ of_ecdsa_key key = cc e in
      (
        key,
        same,
        is_key,
        positive,
        ap to_ecdsa_private_key same
            ∙ to_ecdsa_private_key-of_ecdsa_key key is_key.x_fits is_key.y_fits,
      )

  -- A key pair that `NewKeyPair` has generated and `ToPem` has written with a password, both
  -- without an error, is what `NewFromPem` reads with that password.
  pub new_from_pem-to_pem :
      (seed entropy : ℕ) (k : KeyPair) (password pem_encoded : Bytes)
      → new_key_pair f seed ≡ ok k
      → to_pem f entropy password k ≡ ok pem_encoded
      → new_from_pem f pem_encoded password ≡ ok k
  unfolding to_pem new_from_pem
  new_from_pem-to_pem seed entropy k password pem_encoded generated h =
      let (key, same, is_key, _, back) = new_key_pair-IsKey seed k generated in
      let (s, marshalled, h') =
        >>=-eq-ok (f.marshal_private_key (to_ecdsa_private_key k))
          (λ s. f.encrypt_block entropy pem_type s password >>= λ b. ok (f.encode_to_memory b))
          {b = pem_encoded} h in
      let (b, encrypted, e) =
        >>=-eq-ok (f.encrypt_block entropy pem_type s password) (λ b. ok (f.encode_to_memory b))
          {b = pem_encoded} h' in
      let text : f.encode_to_memory b ≡ pem_encoded = cc e in
      let found : (f.decode pem_encoded).0 ≡ some b =
        ap (λ t. (f.decode t).0) (sym text)
        ∙ laws.decode_encode entropy pem_type s password b encrypted in
      rw (
        found,
        laws.decrypt_encrypt entropy pem_type s password b encrypted,
        laws.parse_marshal key s is_key.pair (ap f.marshal_private_key (sym back) ∙ marshalled),
        same,
      )
