-- ===== src/Crypto.antt =====
-- internal/util/bytes.go, and `Sign` and `VerifySignature` of crypto/crypto.go.
pub mod RoundTrip
pub mod Encryption
use setinstone.Prelude.{
  ℕ, ◌-◌, ◌/◌, ◌++◌, Bool, Bytes, leb, if◌then◌else◌, length, take, drop, replicate,
}
use setinstone.Prelude.Outcome.{Outcome, ok, ◌>>=◌}
use setinstone.BigInt.{set_bytes, big_bytes}
use setinstone.Primitives.{Primitives, EcdsaKey}

-- `padded` is made of zeros, and `slice` is copied to its end.
unfoldable pub left_pad_bytes : Bytes → ℕ → Bytes
left_pad_bytes slice n =
    if leb n (length slice) then slice else replicate (n - length slice) 0 ++ slice

-- `append(LeftPadBytes(x.Bytes(), 32), LeftPadBytes(y.Bytes(), 32)...)`
unfoldable pub padded_pair : ℕ → ℕ → Bytes
unfolding left_pad_bytes
padded_pair x y = left_pad_bytes (big_bytes x) 32 ++ left_pad_bytes (big_bytes y) 32

-- `SetBytes(s[:len(s)/2])` and `SetBytes(s[len(s)/2:])`
unfoldable pub halves : Bytes → ℕ × ℕ
halves s = (set_bytes (take (length s / 2) s), set_bytes (drop (length s / 2) s))

module _ (p : Primitives) where
  unfoldable pub sign : ℕ → Bytes → EcdsaKey → Outcome Bytes
  unfolding padded_pair
  sign seed hash key = do rs ← p.ecdsa_sign seed key hash; ok (padded_pair rs.0 rs.1)

  unfoldable pub verify_signature : Bytes → Bytes → Bytes → Bool
  verify_signature signature pub_key hash =
      let (r, s) = halves signature in let (x, y) = halves pub_key in p.ecdsa_verify x y hash r s
