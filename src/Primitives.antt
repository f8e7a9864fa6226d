-- ===== src/Primitives.antt =====
-- The cryptographic functions and the clock that the program calls: a parameter of the model. Their
-- documented behaviour is the record of laws.
use setinstone.Prelude.{ℕ, ◌^◌, ◌<◌, ◌≡◌, Bool, true, Option, Bytes, All, length}
use setinstone.Prelude.Outcome.{Outcome, ok}

-- `*ecdsa.PrivateKey` on the curve P-256: the secret and the public point.
pub record EcdsaKey : Type 0 where
  pub secret : ℕ
  pub x : ℕ
  pub y : ℕ

pub record Primitives : Type 0 where
  -- sha256.Sum256, and ripemd160 of golang.org/x/crypto
  pub sha256 : Bytes → Bytes
  pub ripemd160 : Bytes → Bytes
  -- ecdsa.Sign with the randomness that it reads, and ecdsa.Verify of (x, y), a hash and (r, s)
  pub ecdsa_sign : ℕ → EcdsaKey → Bytes → Outcome (ℕ × ℕ)
  pub ecdsa_verify : ℕ → ℕ → Bytes → ℕ → ℕ → Bool
  -- the public point belongs to the secret
  pub is_pair : EcdsaKey → Bool
  -- time.Parse(time.RFC3339, s), as nanoseconds
  pub parse_time : Bytes → Option ℕ

pub record PrimitivesLaws (p : Primitives) : Type 0 where
  pub sha256_length : (s : Bytes) → length (p.sha256 s) ≡ 32
  pub sha256_bytes : (s : Bytes) → All (λ c. c < 256) (p.sha256 s)
  pub ripemd160_length : (s : Bytes) → length (p.ripemd160 s) ≡ 20
  pub ripemd160_bytes : (s : Bytes) → All (λ c. c < 256) (p.ripemd160 s)
  -- a signature is two numbers below the order of the curve, and verifies
  pub sign_bounds :
      (seed : ℕ) (k : EcdsaKey) (h : Bytes) (r s : ℕ)
      → p.ecdsa_sign seed k h ≡ ok (r, s)
      → (r < 256 ^ 32) × (s < 256 ^ 32)
  pub sign_verifies :
      (seed : ℕ) (k : EcdsaKey) (h : Bytes) (r s : ℕ)
      → p.is_pair k ≡ true
      → p.ecdsa_sign seed k h ≡ ok (r, s)
      → p.ecdsa_verify k.x k.y h r s ≡ true
