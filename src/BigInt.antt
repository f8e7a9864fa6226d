-- ===== src/BigInt.antt =====
-- The parts of math/big that the program uses: reading a number from big-endian bytes, writing it
-- back, and the division loop that makes its digits. `fuel` bounds the rounds: a number has no more
-- digits than its value, so the callers give the number itself.
pub mod Digits
use setinstone.Prelude.{
  ℕ, zero, suc, ◌+◌, ◌*◌, ◌/◌, ◌%◌, [], ◌∷◌, true, false, reverse, Bytes, ◌==◌,
}

-- The number that big-endian digits in base `b` spell behind `n`.
unfoldable pub value_from : ℕ → ℕ → Bytes → ℕ
value_from b n [] = n
value_from b n (d ∷ ds) = value_from b (n * b + d) ds

-- `z.SetBytes(buf)`.
unfoldable pub set_bytes : Bytes → ℕ
unfolding value_from
set_bytes s = value_from 256 0 s

-- The digits of `x` in base `b`, the last one first.
unfoldable pub le_digits : ℕ → ℕ → ℕ → Bytes
le_digits b zero x = []
le_digits b (suc f) x = elim (x == 0) [ true ↦ [] | false ↦ (x % b) ∷ le_digits b f (x / b) ]

-- `x.Bytes()`: big-endian, with no leading zero.
unfoldable pub big_bytes : ℕ → Bytes
unfolding le_digits
big_bytes x = reverse (le_digits 256 x x)
