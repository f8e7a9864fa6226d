-- ===== src/Address/Base58/Alphabet.antt =====
-- address/base58.go: the alphabet as a table.
use setinstone.Prelude.{
  ℕ, zero, suc, ◌<◌, ◌≡◌, refl, Bool, true, false, ◌&&◌, ◌||◌, arith, ◌==◌, not,
}
use setinstone.Prelude.Int.{ℤ, pos, negsuc}
use setinstone.Address.Base58.{b58_alphabet, one_char, digit_char, index_byte}

-- A test of the digits, from the highest one down.
every_digit : (ℕ → Bool) → ℕ → Bool
every_digit test (suc d) = every_digit test d && test d
every_digit test zero = true

every_digit_lem :
    (test : ℕ → Bool) (bound d : ℕ) → d < bound → every_digit test bound ≡ true → test d ≡ true
unfolding every_digit
every_digit_lem test (suc bound) d lt all = ground (arith, every_digit_lem test bound d)
every_digit_lem test zero d lt all = absurd (omega arith)

is_at : ℤ → ℕ → Bool
is_at (pos n) d = n == d
is_at (negsuc n) d = false

is_at_sound : (z : ℤ) (d : ℕ) → is_at z d ≡ true → z ≡ pos d
unfolding is_at
is_at_sound z d h = ground arith

found_table : every_digit (λ d. is_at (index_byte b58_alphabet (digit_char d)) d) 58 ≡ true
unfolding every_digit is_at index_byte digit_char
found_table = refl

pub index_byte-digit_char : (d : ℕ) → d < 58 → index_byte b58_alphabet (digit_char d) ≡ pos d
index_byte-digit_char d lt = is_at_sound _ d (every_digit_lem _ 58 d lt found_table)

one_table : every_digit (λ d. (d == 0) || not (digit_char d == one_char)) 58 ≡ true
unfolding every_digit digit_char
one_table = refl

-- The byte of a digit is '1' for the digit zero alone.
pub digit_char-one : (d : ℕ) → d < 58 → digit_char d ≡ one_char → d ≡ 0
digit_char-one d lt e =
    ground
      (arith, every_digit_lem (λ k. (k == 0) || not (digit_char k == one_char)) 58 d lt one_table)
