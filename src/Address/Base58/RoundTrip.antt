-- ===== src/Address/Base58/RoundTrip.antt =====
-- address/base58.go: `Base58Encode` and `Base58Decode` one after the other.
use setinstone.Prelude.{
  ◌⊎◌, inl, inr, ℕ, zero, suc, ◌+◌, ◌*◌, ◌/◌, ◌%◌, ◌<◌, ◌≡◌, ◌≢◌, refl, sym, ap, ◌∙◌, subst, [],
  ◌∷◌, ◌++◌, reverse, map, reverse-append, reverse-reverse, append_assoc, append-nil, arith, Bytes,
  All, replicate,
}
use mathlib.Core.List.{map-append}
use native.Mathlib.Decide.{ℕ_discrete}
use setinstone.Prelude.Int.{ℤ, pos, ◌+ℤ◌, ◌*ℤ◌, pos_add, pos_mul, abs}
use setinstone.Prelude.Outcome.{ok, panic, ◌>>=◌}
use setinstone.BigInt.{value_from, le_digits, set_bytes, big_bytes}
use setinstone.BigInt.Digits.{
  le_value, le_value_top, IsCanonical, IsCanonical-top, IsCanonical-All, IsCanonical-reverse,
  All-reverse, value_from-reverse, value_from-zeros, le_value-le_digits, le_digits-IsCanonical,
  le_digits-le_value,
}
use setinstone.Address.Base58.{
  b58_alphabet, one_char, digit_char, reverse_bytes, encode_loop, pad_ones, base58_encode,
  index_byte, decode_loop, pad_zeros, base58_decode,
}
use setinstone.Address.Base58.Alphabet.{index_byte-digit_char, digit_char-one}
use setinstone.Address.Base58.Reverse.{reverse_bytes-eq-reverse}

-- What one byte holds.
abbrev pub IsBytes : Bytes → Type 0
IsBytes = All (λ c. c < 256)

abbrev pub IsDigits : Bytes → Type 0
IsDigits = All (λ d. d < 58)

-- Zeros, then a byte that is not zero, then the rest.
pub data HasNonZero : Bytes → Type 0 where
  after : (z c : ℕ) (rest s : Bytes) → c ≢ 0 → s ≡ replicate z 0 ++ c ∷ rest → HasNonZero s

encode_loop-le_digits :
    (f x : ℕ) (result : Bytes)
    → encode_loop f x result ≡ result ++ map digit_char (le_digits 58 f x)
unfolding encode_loop le_digits
encode_loop-le_digits zero x result = sym (append-nil result)
encode_loop-le_digits (suc f) x result = ground (
  arith,
  append-nil result,
  encode_loop-le_digits f (x / 58) (result ++ digit_char (x % 58) ∷ []),
  append_assoc result (digit_char (x % 58) ∷ []) (map digit_char (le_digits 58 f (x / 58))),
)

pad_ones-zeros :
    (z c : ℕ) (rest result : Bytes)
    → c ≢ 0
    → pad_ones (replicate z 0 ++ c ∷ rest) result ≡ ok (result ++ replicate z one_char)
unfolding pad_ones
pad_ones-zeros zero c rest result h = ground (arith, append-nil result)
pad_ones-zeros (suc z) c rest result h =
    pad_ones-zeros z c rest (result ++ one_char ∷ []) h
    ∙ ap ok (append_assoc result (one_char ∷ []) (replicate z one_char))

replicate-shift : (z : ℕ) (s : Bytes) → replicate z 0 ++ 0 ∷ s ≡ replicate (suc z) 0 ++ s
replicate-shift zero s = refl
replicate-shift (suc z) s = ap (λ r. 0 ∷ r) (replicate-shift z s)

pad_zeros-ones :
    (z c : ℕ) (rest decoded : Bytes)
    → c ≢ one_char
    → pad_zeros (replicate z one_char ++ c ∷ rest) decoded ≡ ok (replicate z 0 ++ decoded)
unfolding pad_zeros
pad_zeros-ones zero c rest decoded h = ground arith
pad_zeros-ones (suc z) c rest decoded h =
    pad_zeros-ones z c rest (0 ∷ decoded) h ∙ ap ok (replicate-shift z decoded)

value_from_step : (b n d : ℕ) (ds : Bytes) → value_from b (n * b + d) ds ≡ value_from b n (d ∷ ds)
unfolding value_from
value_from_step b n d ds = refl

pub decode_loop_step :
    (c : ℕ) (input : Bytes) (r : ℤ)
    → decode_loop (c ∷ input) r ≡ decode_loop input (r *ℤ pos 58 +ℤ index_byte b58_alphabet c)
unfolding decode_loop
decode_loop_step c input r = refl

pub decode_loop_digit :
    (d n : ℕ) (s : Bytes)
    → d < 58
    → decode_loop (digit_char d ∷ s) (pos n) ≡ decode_loop s (pos (n * 58 + d))
decode_loop_digit d n s lt =
    decode_loop_step (digit_char d) s (pos n) ∙ rw (index_byte-digit_char d lt, pos_mul, pos_add)

decode_loop-digits :
    (ds : Bytes) (n : ℕ)
    → IsDigits ds
    → decode_loop (map digit_char ds) (pos n) ≡ pos (value_from 58 n ds)
decode_loop-digits [] n h = unfold decode_loop value_from in refl
decode_loop-digits (d ∷ ds) n (lt, h) =
    decode_loop_digit d n (map digit_char ds) lt
    ∙ decode_loop-digits ds (n * 58 + d) h
    ∙ ap pos (value_from_step 58 n d ds)

map-reverse : (f : ℕ → ℕ) (s : Bytes) → map f (reverse s) ≡ reverse (map f s)
map-reverse f [] = refl
map-reverse f (x ∷ s) =
    ap (map f) (reverse-append (x ∷ []) s)
    ∙ map-append f (reverse s) (x ∷ [])
    ∙ ap (λ r. r ++ f x ∷ []) (map-reverse f s)
    ∙ sym (reverse-append (f x ∷ []) (map f s))

replicate_snoc : (z : ℕ) → replicate z one_char ++ one_char ∷ [] ≡ replicate (suc z) one_char
replicate_snoc zero = refl
replicate_snoc (suc z) = ap (λ r. one_char ∷ r) (replicate_snoc z)

reverse-ones : (z : ℕ) → reverse (replicate z one_char) ≡ replicate z one_char
reverse-ones zero = refl
reverse-ones (suc z) =
    reverse-append (one_char ∷ []) (replicate z one_char)
    ∙ ap (λ r. r ++ one_char ∷ []) (reverse-ones z)
    ∙ replicate_snoc z

-- The text of digits below zeros: one '1' for each zero, then the digits forwards.
pub encoded : (z : ℕ) (ds : Bytes) → Bytes
encoded z ds = replicate z one_char ++ map digit_char (reverse ds)

-- What the encoder returns, before any decoding.
pub base58_encode_lem :
    (z c : ℕ) (rest s : Bytes)
    → c ≢ 0
    → s ≡ replicate z 0 ++ c ∷ rest
    → base58_encode s ≡ ok (encoded z (le_digits 58 (set_bytes s) (set_bytes s)))
unfolding base58_encode encoded
base58_encode_lem z c rest s h e =
    let x : ℕ = set_bytes s in
    let ds : Bytes = le_digits 58 x x in
    ap (λ r. pad_ones r (encode_loop x x []) >>= λ t. ok (reverse_bytes t)) e
    ∙ rw (pad_ones-zeros z c rest (encode_loop x x []) h) (
        ap ok (
          reverse_bytes-eq-reverse (encode_loop x x [] ++ replicate z one_char)
          ∙ ap (λ r. reverse (r ++ replicate z one_char)) (encode_loop-le_digits x x [])
          ∙ reverse-append (map digit_char ds) (replicate z one_char)
          ∙ rw (reverse-ones z, map-reverse digit_char ds)))

digit_char_zero : digit_char 0 ≡ one_char
unfolding digit_char
digit_char_zero = refl

decode_loop-ones :
    (z : ℕ) (s : Bytes) → decode_loop (replicate z one_char ++ s) (pos 0) ≡ decode_loop s (pos 0)
decode_loop-ones zero s = refl
decode_loop-ones (suc z) s =
    ap (λ c. decode_loop (c ∷ (replicate z one_char ++ s)) (pos 0)) (sym digit_char_zero)
    ∙ decode_loop_digit 0 0 (replicate z one_char ++ s) (omega arith)
    ∙ decode_loop-ones z s

decode_loop-encoded :
    (z : ℕ) (ds : Bytes)
    → IsCanonical 58 ds
    → decode_loop (encoded z ds) (pos 0) ≡ pos (le_value 58 ds)
unfolding encoded
decode_loop-encoded z ds h =
    decode_loop-ones z (map digit_char (reverse ds))
    ∙ decode_loop-digits (reverse ds) 0 (All-reverse 58 ds (IsCanonical-All 58 ds h))
    ∙ ap pos (value_from-reverse 58 ds)

-- The bytes that the text of a number decodes to.
pub base58_decode_lem :
    (z d : ℕ) (ds : Bytes)
    → IsCanonical 58 (d ∷ ds)
    → base58_decode (encoded z (d ∷ ds)) ≡ ok (replicate z 0 ++ big_bytes (le_value 58 (d ∷ ds)))
unfolding base58_decode encoded
base58_decode_lem z d ds h =
    let (c, rest, eq, ne) = IsCanonical-top 58 d ds h in
    let lt : IsDigits (c ∷ rest) =
      subst IsDigits eq (All-reverse 58 (d ∷ ds) (IsCanonical-All 58 (d ∷ ds) h)) in
    ap (λ v. pad_zeros (encoded z (d ∷ ds)) (big_bytes (abs v))) (decode_loop-encoded z (d ∷ ds) h)
    ∙ ap
        (λ r.
          pad_zeros (replicate z one_char ++ map digit_char r) (big_bytes (le_value 58 (d ∷ ds))))
        eq
    ∙ pad_zeros-ones z (digit_char c) (map digit_char rest) (big_bytes (le_value 58 (d ∷ ds)))
        (λ e. ne (digit_char-one c lt.0 e))

value-stripped :
    (z c : ℕ) (rest s : Bytes)
    → s ≡ replicate z 0 ++ c ∷ rest
    → set_bytes s ≡ le_value 256 (reverse (c ∷ rest))
unfolding set_bytes
value-stripped z c rest s e =
    ap (value_from 256 0) e
    ∙ value_from-zeros 256 z (c ∷ rest)
    ∙ ap (value_from 256 0) (sym (reverse-reverse (c ∷ rest)))
    ∙ value_from-reverse 256 (reverse (c ∷ rest))

-- `x.Bytes()` of the number that bytes spell is those bytes, without their leading zeros.
pub big_bytes-set_bytes :
    (z c : ℕ) (rest s : Bytes)
    → IsBytes (c ∷ rest)
    → c ≢ 0
    → s ≡ replicate z 0 ++ c ∷ rest
    → big_bytes (set_bytes s) ≡ c ∷ rest
big_bytes-set_bytes z c rest s h ne e =
    let ds : Bytes = reverse (c ∷ rest) in
    ap big_bytes (value-stripped z c rest s e)
    ∙ unfold big_bytes in
      ap reverse (
        le_digits-le_value 256 (omega arith) (le_value 256 ds) ds
          (IsCanonical-reverse 256 c rest h ne) (omega arith))
      ∙ reverse-reverse (c ∷ rest)

All-drop : (z : ℕ) (s : Bytes) → IsBytes (replicate z 0 ++ s) → IsBytes s
All-drop zero s h = h
All-drop (suc z) s h = All-drop z s h.1

All-tail :
    (z c : ℕ) (rest s : Bytes) → IsBytes s → s ≡ replicate z 0 ++ c ∷ rest → IsBytes (c ∷ rest)
All-tail z c rest s h e = All-drop z (c ∷ rest) (subst IsBytes e h)

le_value-ne-zero : (c : ℕ) (rest : Bytes) → c ≢ 0 → le_value 256 (reverse (c ∷ rest)) ≢ 0
le_value-ne-zero c rest ne h = ne (
    le_value_top 256 (omega arith) (reverse rest) c
      (ap (le_value 256) (sym (reverse-append (c ∷ []) rest)) ∙ h))

positive : (z c : ℕ) (rest s : Bytes) → c ≢ 0 → s ≡ replicate z 0 ++ c ∷ rest → set_bytes s ≢ 0
positive z c rest s ne e h = le_value-ne-zero c rest ne (sym (value-stripped z c rest s e) ∙ h)

decode_of_digits :
    (z x : ℕ) (ds : Bytes)
    → IsCanonical 58 ds
    → le_value 58 ds ≡ x
    → x ≢ 0
    → base58_decode (encoded z ds) ≡ ok (replicate z 0 ++ big_bytes x)
decode_of_digits z x [] h e ne = absurd (ne (sym e))
decode_of_digits z x (d ∷ ds) h e ne =
    base58_decode_lem z d ds h ∙ ap (λ v. ok (replicate z 0 ++ big_bytes v)) e

-- Bytes that are not all zero are encoded, with no panic, to a text that decodes to them.
pub base58_decode-base58_encode :
    (s : Bytes) → IsBytes s → HasNonZero s → (base58_encode s >>= base58_decode) ≡ ok s
base58_decode-base58_encode s bytes (after z c rest _ ne e) =
    let x : ℕ = set_bytes s in
    let ds : Bytes = le_digits 58 x x in
    ap (λ r. r >>= base58_decode) (base58_encode_lem z c rest s ne e)
    ∙ decode_of_digits z x ds (le_digits-IsCanonical 58 (omega arith) x x (omega arith))
        (le_value-le_digits 58 (omega arith) x x (omega arith)) (positive z c rest s ne e)
    ∙ ap (λ r. ok (replicate z 0 ++ r))
        (big_bytes-set_bytes z c rest s (All-tail z c rest s bytes e) ne e)
    ∙ ap ok (sym e)

replicate_or_nonzero : (s : Bytes) → ((n : ℕ) × (s ≡ replicate n 0)) ⊎ HasNonZero s
replicate_or_nonzero [] = inl (0, refl)
replicate_or_nonzero (c ∷ s) = elim (ℕ_discrete c 0) [
  | no h ↦ inr (after 0 c s (c ∷ s) h refl)
  | yes h ↦ elim (replicate_or_nonzero s) [
    | inl (n, e) ↦ inl (suc n, rw (h, e))
    | inr (after z d rest _ ne e) ↦ inr (after (suc z) d rest (c ∷ s) ne (rw (h, e)))
  ]
]

pad_ones-all : (n : ℕ) (result : Bytes) → pad_ones (replicate n 0) result ≡ panic
unfolding pad_ones
pad_ones-all zero result = refl
pad_ones-all (suc n) result = pad_ones-all n (result ++ one_char ∷ [])

-- Bytes that are all zero make the encoder read past their end and panic.
pub base58_encode-zeros : (n : ℕ) → base58_encode (replicate n 0) ≡ panic
unfolding base58_encode
base58_encode-zeros n = ap (λ r. r >>= λ t. ok (reverse_bytes t)) (pad_ones-all n _)

-- A text that the encoder returns decodes to what was encoded.
pub base58_decode_of_encoded :
    (s t : Bytes) → IsBytes s → base58_encode s ≡ ok t → base58_decode t ≡ ok s
base58_decode_of_encoded s t bytes e = elim (replicate_or_nonzero s) [
  | inl (n, z) ↦ cc (ap base58_encode z, base58_encode-zeros n)
  | inr h ↦ ap (λ r. r >>= base58_decode) (sym e) ∙ base58_decode-base58_encode s bytes h
]
