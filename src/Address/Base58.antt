-- ===== src/Address/Base58.antt =====
-- address/base58.go: `Base58Encode`, `Base58Decode` and `ReverseBytes`. A loop is a function of its
-- variables. An index out of range is the outcome `panic`.
pub mod Alphabet
pub mod Reverse
pub mod RoundTrip
pub mod Malformed
use setinstone.Prelude.{
  ℕ, zero, suc, ◌+◌, ◌-◌, ◌/◌, ◌%◌, [], ◌∷◌, ◌++◌, true, false, Option, none, some, Bytes, codes,
  ◌==◌, ltb, if◌then◌else◌, get_elem?, set, length,
}
use setinstone.Prelude.Int.{ℤ, pos, negsuc, ◌+ℤ◌, ◌*ℤ◌, abs}
use setinstone.Prelude.Outcome.{Outcome, ok, panic, ◌>>=◌}
use setinstone.BigInt.{set_bytes, big_bytes}

abbrev pub b58_alphabet : Bytes
b58_alphabet = codes "123456789ABCDEFGHJKLMNPQRSTUVWXYZabcdefghijkmnopqrstuvwxyz"

-- The first byte of the alphabet, which stands for the digit zero.
abbrev pub one_char : ℕ
one_char = b'1'

or_zero : Option ℕ → ℕ
or_zero none = 0
or_zero (some c) = c

-- `b58Alphabet[mod]`; the index is a remainder by 58, which is in range.
pub digit_char : ℕ → ℕ
unfolding or_zero
digit_char d = or_zero (get_elem? b58_alphabet d)

-- `data[i], data[j] = data[j], data[i]`
pub swap : ℕ → ℕ → Bytes → Bytes
unfolding or_zero
swap i j s = set (set s i (or_zero (get_elem? s j))) j (or_zero (get_elem? s i))

-- `for i < j { swap; i++; j-- }`, with `f` rounds at most. The length of the data is enough.
pub swap_loop : ℕ → ℕ → ℕ → Bytes → Bytes
unfolding swap
swap_loop zero i j s = s
swap_loop (suc f) i j s = elim (ltb i j) [
  | true ↦ swap_loop f (i + 1) (j - 1) (swap i j s)
  | false ↦ s
]

-- `len(data)-1` of an empty slice is -1; as 0 it fails the test `i < j` too.
pub reverse_bytes : Bytes → Bytes
unfolding swap_loop
reverse_bytes s = swap_loop (length s) 0 (length s - 1) s

-- `for x != 0 { x, mod = x/58, x%58; append }`
pub encode_loop : ℕ → ℕ → Bytes → Bytes
unfolding digit_char
encode_loop zero x result = result
encode_loop (suc f) x result = elim (x == 0) [
  | true ↦ result
  | false ↦ encode_loop f (x / 58) (result ++ digit_char (x % 58) ∷ [])
]

-- `for input[i] == 0x00 { append '1'; i++ }`
pub pad_ones : Bytes → Bytes → Outcome Bytes
pad_ones [] result = panic
pad_ones (c ∷ input) result =
    let more = pad_ones input (result ++ one_char ∷ []) in if c == 0 then more else ok result

unfoldable pub base58_encode : Bytes → Outcome Bytes
unfolding set_bytes encode_loop pad_ones reverse_bytes
base58_encode input =
    let x = set_bytes input in
    do result ← pad_ones input (encode_loop x x []); ok (reverse_bytes result)

-- `bytes.IndexByte(s, c)` behind `i` bytes.
pub index_from : ℕ → Bytes → ℕ → ℤ
index_from i [] c = negsuc 0
index_from i (x ∷ s) c = let rest = index_from (i + 1) s c in if x == c then pos i else rest

unfoldable pub index_byte : Bytes → ℕ → ℤ
unfolding index_from
index_byte s c = index_from 0 s c

-- `for b := range input { result = result*58 + charIndex }`. The index of a foreign byte is -1.
pub decode_loop : Bytes → ℤ → ℤ
unfolding index_byte ◌+ℤ◌ ◌*ℤ◌
decode_loop [] result = result
decode_loop (c ∷ input) result = decode_loop input (result *ℤ pos 58 +ℤ index_byte b58_alphabet c)

-- `for input[i] == '1' { decoded = 0x00 + decoded; i++ }`
pub pad_zeros : Bytes → Bytes → Outcome Bytes
pad_zeros [] decoded = panic
pad_zeros (c ∷ input) decoded =
    let more = pad_zeros input (0 ∷ decoded) in if c == one_char then more else ok decoded

unfoldable pub base58_decode : Bytes → Outcome Bytes
unfolding decode_loop big_bytes pad_zeros
base58_decode input = pad_zeros input (big_bytes (abs (decode_loop input (pos 0))))
