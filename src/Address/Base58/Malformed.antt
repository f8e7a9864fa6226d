-- ===== src/Address/Base58/Malformed.antt =====
-- What `Base58Decode` makes of text that `Base58Encode` does not write.
use setinstone.Prelude.{
  ℕ, zero, suc, ◌+◌, ◌*◌, ◌<◌, ◌≡◌, ◌≢◌, refl, sym, ap, ◌∙◌, [], ◌∷◌, ◌++◌, map, arith, Bytes, All,
  replicate,
}
use setinstone.Prelude.Int.{pos, negsuc, ◌+ℤ◌, pos_mul, abs}
use setinstone.Prelude.Outcome.{ok, panic}
use setinstone.BigInt.{big_bytes}
use setinstone.Address.Base58.{
  b58_alphabet, one_char, digit_char, index_byte, decode_loop, pad_zeros, base58_decode,
}
use setinstone.Address.Base58.Alphabet.{digit_char-one}
use setinstone.Address.Base58.RoundTrip.{IsDigits, decode_loop_step, decode_loop_digit}

pad_zeros-all : (n : ℕ) (decoded : Bytes) → pad_zeros (replicate n one_char) decoded ≡ panic
unfolding pad_zeros
pad_zeros-all zero decoded = refl
pad_zeros-all (suc n) decoded = pad_zeros-all n (0 ∷ decoded)

-- A text of '1's alone, the empty text included, makes the decoder read past its end and panic.
pub base58_decode-ones : (n : ℕ) → base58_decode (replicate n one_char) ≡ panic
unfolding base58_decode
base58_decode-ones n =
    pad_zeros-all n (big_bytes (abs (decode_loop (replicate n one_char) (pos 0))))

borrow : (r d : ℕ) → pos ((r * 58 + suc d) * 58) +ℤ negsuc 0 ≡ pos ((r * 58 + d) * 58 + 57)
unfolding ◌+ℤ◌
borrow r d = ground arith

decode_loop-two :
    (d e r : ℕ) (rest : Bytes)
    → d < 58
    → e < 58
    → decode_loop (digit_char d ∷ digit_char e ∷ rest) (pos r)
      ≡ decode_loop rest (pos ((r * 58 + d) * 58 + e))
decode_loop-two d e r rest hd he =
    decode_loop_digit d r (digit_char e ∷ rest) hd ∙ decode_loop_digit e (r * 58 + d) rest he

digit_57 : digit_char 57 ≡ b'z'
unfolding digit_char
digit_57 = refl

last_char :
    (d r : ℕ) (rest : Bytes)
    → decode_loop (digit_char d ∷ digit_char 57 ∷ rest) (pos r)
      ≡ decode_loop (digit_char d ∷ b'z' ∷ rest) (pos r)
last_char d r rest = ap (λ c. decode_loop (digit_char d ∷ c ∷ rest) (pos r)) digit_57

-- The digit before a byte that is not in the alphabet counts one less, and the byte counts 57.
decode_loop-foreign :
    (d b r : ℕ) (rest : Bytes)
    → suc d < 58
    → index_byte b58_alphabet b ≡ negsuc 0
    → decode_loop (digit_char (suc d) ∷ b ∷ rest) (pos r)
      ≡ decode_loop (digit_char d ∷ digit_char 57 ∷ rest) (pos r)
decode_loop-foreign d b r rest lt h =
    decode_loop_digit (suc d) r (b ∷ rest) lt
    ∙ decode_loop_step b rest (pos (r * 58 + suc d))
    ∙ rw (h, pos_mul, borrow r d) (sym (decode_loop-two d 57 r rest (omega arith) (omega arith)))

decode_loop-prefix :
    (ps s t : Bytes) (n : ℕ)
    → IsDigits ps
    → ((m : ℕ) → decode_loop s (pos m) ≡ decode_loop t (pos m))
    → decode_loop (map digit_char ps ++ s) (pos n) ≡ decode_loop (map digit_char ps ++ t) (pos n)
decode_loop-prefix [] s t n h same = same n
decode_loop-prefix (p ∷ ps) s t n h same =
    decode_loop_digit p n (map digit_char ps ++ s) h.0
    ∙ decode_loop-prefix ps s t (n * 58 + p) h.1 same
    ∙ sym (decode_loop_digit p n (map digit_char ps ++ t) h.0)

pad_zeros-skip : (c : ℕ) (s decoded : Bytes) → c ≢ one_char → pad_zeros (c ∷ s) decoded ≡ ok decoded
unfolding pad_zeros
pad_zeros-skip c s decoded h = ground arith

-- A text with a byte outside the alphabet is decoded without an error: behind a first digit that is
-- not zero and more digits, the digit d + 1 and any foreign byte decode as the digit d and a 'z'.
pub base58_decode-foreign :
    (e : ℕ) (ps : Bytes) (d b : ℕ) (rest : Bytes)
    → All (λ k. k < 58) (e ∷ ps)
    → e ≢ 0
    → suc d < 58
    → index_byte b58_alphabet b ≡ negsuc 0
    → base58_decode (map digit_char (e ∷ ps) ++ digit_char (suc d) ∷ b ∷ rest)
      ≡ base58_decode (map digit_char (e ∷ ps) ++ digit_char d ∷ b'z' ∷ rest)
unfolding base58_decode
base58_decode-foreign e ps d b rest digits ne lt h =
    let lead : digit_char e ≢ one_char = λ q. ne (digit_char-one e digits.0 q) in
    pad_zeros-skip (digit_char e) (map digit_char ps ++ digit_char (suc d) ∷ b ∷ rest) _ lead
    ∙ ap (λ v. ok (big_bytes (abs v)))
        (decode_loop-prefix (e ∷ ps) (digit_char (suc d) ∷ b ∷ rest) (digit_char d ∷ b'z' ∷ rest) 0
          digits (λ m. decode_loop-foreign d b m rest lt h ∙ last_char d m rest))
    ∙ sym (pad_zeros-skip (digit_char e) (map digit_char ps ++ digit_char d ∷ b'z' ∷ rest) _ lead)
