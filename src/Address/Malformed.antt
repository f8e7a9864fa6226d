-- ===== src/Address/Malformed.antt =====
-- What `IsValid` makes of text that no address is.
use setinstone.Prelude.{ℕ, suc, ◌<◌, ◌≡◌, ◌≢◌, ◌∷◌, ◌++◌, map, arith, Bytes, All, replicate}
use setinstone.Prelude.Int.{negsuc}
use setinstone.Prelude.Outcome.{panic}
use setinstone.Primitives.{Primitives}
use setinstone.Address.{is_valid}
use setinstone.Address.Base58.{b58_alphabet, one_char, digit_char, index_byte}
use setinstone.Address.Base58.Malformed.{base58_decode-ones, base58_decode-foreign}

-- `IsValid` panics on every text of '1's alone that is not empty.
pub is_valid-ones : (p : Primitives) (n : ℕ) → is_valid p (replicate (suc n) one_char) ≡ panic
unfolding is_valid
is_valid-ones p n = rw (base58_decode-ones (suc n)) (ground arith)

-- `IsValid` takes bytes outside the Base58 alphabet for digits: behind a first digit that is not
-- zero and more digits, the digit d + 1 with any foreign byte behind it has the outcome of the
-- digit d with a 'z' behind it, whatever follows.
pub is_valid-foreign :
    (p : Primitives) (e : ℕ) (ps : Bytes) (d b : ℕ) (rest : Bytes)
    → All (λ k. k < 58) (e ∷ ps)
    → e ≢ 0
    → suc d < 58
    → index_byte b58_alphabet b ≡ negsuc 0
    → is_valid p (map digit_char (e ∷ ps) ++ digit_char (suc d) ∷ b ∷ rest)
      ≡ is_valid p (map digit_char (e ∷ ps) ++ digit_char d ∷ b'z' ∷ rest)
unfolding is_valid
is_valid-foreign p e ps d b rest digits ne lt h =
    rw (base58_decode-foreign e ps d b rest digits ne lt h) (ground arith)
