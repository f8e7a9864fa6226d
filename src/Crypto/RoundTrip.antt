-- ===== src/Crypto/RoundTrip.antt =====
-- crypto/crypto.go: `Sign` and `VerifySignature` one after the other.
use setinstone.Prelude.{
  ℕ, zero, suc, ◌-◌, ◌/◌, ◌^◌, ◌≤◌, ◌<◌, ◌≡◌, refl, sym, ap, ◌∙◌, subst, ◌++◌, true, arith, Bytes,
  leb, length, length-append, length-replicate, length-reverse, take-length_append,
  drop-length_append, replicate, inl, inr, Bool-cases, All, All-append,
}
use setinstone.Prelude.Outcome.{ok, >>=-eq-ok}
use setinstone.BigInt.{set_bytes, big_bytes, le_digits}
use setinstone.BigInt.Digits.{
  value_from-zeros, value_from-reverse, le_value-le_digits, length-le_digits, le_digits-IsCanonical,
  IsCanonical-All, All-reverse,
}
use setinstone.Primitives.{Primitives, PrimitivesLaws, EcdsaKey}
use setinstone.Crypto.{left_pad_bytes, padded_pair, halves, sign, verify_signature}

-- The bytes of a number spell it.
pub set_bytes-big_bytes : (x : ℕ) → set_bytes (big_bytes x) ≡ x
unfolding set_bytes big_bytes
set_bytes-big_bytes x =
    value_from-reverse 256 (le_digits 256 x x)
    ∙ le_value-le_digits 256 (omega arith) x x (omega arith)

length-big_bytes : (x n : ℕ) → x < 256 ^ n → length (big_bytes x) ≤ n
unfolding big_bytes
length-big_bytes x n h =
    omega (arith, length-reverse (le_digits 256 x x), length-le_digits 256 (omega arith) x x n h)

pub big_bytes-IsBytes : (x : ℕ) → All (λ c. c < 256) (big_bytes x)
unfolding big_bytes
big_bytes-IsBytes x = All-reverse 256 (le_digits 256 x x) (
    IsCanonical-All 256 (le_digits 256 x x)
      (le_digits-IsCanonical 256 (omega arith) x x (omega arith)))

-- Padding gives the wanted length, and the bytes spell the same number.
left_pad_bytes_lem :
    (s : Bytes) (n : ℕ)
    → length s ≤ n
    → (length (left_pad_bytes s n) ≡ n) × (set_bytes (left_pad_bytes s n) ≡ set_bytes s)
unfolding left_pad_bytes set_bytes
left_pad_bytes_lem s n h = elim (Bool-cases (leb n (length s))) [
  | inl e ↦ rw e (ground arith, refl)
  | inr e ↦ rw e (
    omega (
      arith,
      length-append (replicate (n - length s) 0) s,
      length-replicate {A = ℕ} (n - length s) 0,
    ),
    value_from-zeros 256 (n - length s) s,
  )
]

zeros-IsBytes : (n : ℕ) → All (λ c. c < 256) (replicate n 0)
zeros-IsBytes zero = tt
zeros-IsBytes (suc n) = (omega arith, zeros-IsBytes n)

left_pad_bytes-IsBytes :
    (s : Bytes) (n : ℕ) → All (λ c. c < 256) s → All (λ c. c < 256) (left_pad_bytes s n)
unfolding left_pad_bytes
left_pad_bytes-IsBytes s n h = elim (Bool-cases (leb n (length s))) [
  | inl e ↦ rw e h
  | inr e ↦
      rw e
        (All-append (λ c. c < 256) (replicate (n - length s) 0) s (zeros-IsBytes (n - length s)) h)
]

pub padded_pair-IsBytes : (x y : ℕ) → All (λ c. c < 256) (padded_pair x y)
padded_pair-IsBytes x y =
    unfold padded_pair in
    All-append (λ c. c < 256) (left_pad_bytes (big_bytes x) 32) (left_pad_bytes (big_bytes y) 32)
      (left_pad_bytes-IsBytes (big_bytes x) 32 (big_bytes-IsBytes x))
      (left_pad_bytes-IsBytes (big_bytes y) 32 (big_bytes-IsBytes y))

-- The padded bytes of two numbers below 2^256 are 64.
pub length-padded_pair : (x y : ℕ) → x < 256 ^ 32 → y < 256 ^ 32 → length (padded_pair x y) ≡ 64
unfolding padded_pair
length-padded_pair x y hx hy = omega (
  arith,
  length-append (left_pad_bytes (big_bytes x) 32) (left_pad_bytes (big_bytes y) 32),
  (left_pad_bytes_lem (big_bytes x) 32 (length-big_bytes x 32 hx)).0,
  (left_pad_bytes_lem (big_bytes y) 32 (length-big_bytes y 32 hy)).0,
)

halves_lem :
    (a b : Bytes) → length a ≡ 32 → length b ≡ 32 → halves (a ++ b) ≡ (set_bytes a, set_bytes b)
unfolding halves
halves_lem a b ha hb =
    let middle : length (a ++ b) / 2 ≡ 32 = omega (arith, length-append a b) in
    rw (middle, take-length_append 32 a b ha, drop-length_append 32 a b ha)

-- Two numbers below 2^256 are read back from their padded bytes, however short their own bytes are.
pub halves-padded_pair : (x y : ℕ) → x < 256 ^ 32 → y < 256 ^ 32 → halves (padded_pair x y) ≡ (x, y)
halves-padded_pair x y hx hy =
    let a : Bytes = left_pad_bytes (big_bytes x) 32 in
    let b : Bytes = left_pad_bytes (big_bytes y) 32 in
    let (na, va) = left_pad_bytes_lem (big_bytes x) 32 (length-big_bytes x 32 hx) in
    let (nb, vb) = left_pad_bytes_lem (big_bytes y) 32 (length-big_bytes y 32 hy) in
    unfold padded_pair in
    halves_lem a b na nb ∙ rw (va ∙ set_bytes-big_bytes x, vb ∙ set_bytes-big_bytes y)

-- A key whose public point belongs to its secret, with coordinates that 32 bytes hold.
pub record IsKey (p : Primitives) (k : EcdsaKey) : Type 0 where
  pub pair : p.is_pair k ≡ true
  pub x_fits : k.x < 256 ^ 32
  pub y_fits : k.y < 256 ^ 32

module _ (p : Primitives) (laws : PrimitivesLaws p) where
  verify_signature-padded_pair :
      (r s x y : ℕ) (hash : Bytes)
      → r < 256 ^ 32
      → s < 256 ^ 32
      → x < 256 ^ 32
      → y < 256 ^ 32
      → verify_signature p (padded_pair r s) (padded_pair x y) hash ≡ p.ecdsa_verify x y hash r s
  unfolding verify_signature
  verify_signature-padded_pair r s x y hash hr hs hx hy =
      let signed = halves-padded_pair r s hr hs in
      let point = halves-padded_pair x y hx hy in
      λ i. p.ecdsa_verify (point i).0 (point i).1 hash (signed i).0 (signed i).1

  -- A signature that `Sign` returns for a key whose public point belongs to its secret and fits in
  -- 32 bytes each consists of bytes, and `VerifySignature` accepts it with the padded public bytes
  -- of the key.
  pub verify_signature-sign :
      (seed : ℕ) (hash : Bytes) (k : EcdsaKey) (signature : Bytes)
      → IsKey p k
      → sign p seed hash k ≡ ok signature
      → All (λ c. c < 256) signature
        × (verify_signature p signature (padded_pair k.x k.y) hash ≡ true)
  verify_signature-sign seed hash k signature key h =
      let (rs, made, e) =
        >>=-eq-ok (p.ecdsa_sign seed k hash) (λ rs. ok (padded_pair rs.0 rs.1)) {b = signature}
          (unfold sign in h) in
      let (r_fits, s_fits) = laws.sign_bounds seed k hash rs.0 rs.1 made in
      let same : padded_pair rs.0 rs.1 ≡ signature = cc e in
      (
        subst (All (λ c. c < 256)) same (padded_pair-IsBytes rs.0 rs.1),
        ap (λ t. verify_signature p t (padded_pair k.x k.y) hash) (sym same)
            ∙ verify_signature-padded_pair rs.0 rs.1 k.x k.y hash r_fits s_fits key.x_fits
                key.y_fits
            ∙ laws.sign_verifies seed k hash rs.0 rs.1 key.pair made,
      )
