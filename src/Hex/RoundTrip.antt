-- ===== src/Hex/RoundTrip.antt =====
-- The two functions of encoding/hex one after the other.
use setinstone.Prelude.{
  ℕ, ◌/◌, ◌%◌, ◌<◌, ◌≡◌, refl, ap, ◌∙◌, [], ◌∷◌, true, some, arith, Bytes, All,
}
use setinstone.Hex.{hex_char, hex_value, prepend, encode_to_string, decode_string}

hex_value-hex_char : (d : ℕ) → d < 16 → hex_value (hex_char d) ≡ some d
unfolding hex_value hex_char
hex_value-hex_char d h = ground arith

prepend_digits :
    (c : ℕ) (s : Bytes)
    → c < 256
    → prepend (hex_value (hex_char (c / 16))) (hex_value (hex_char (c % 16))) (s, true)
      ≡ (c ∷ s, true)
prepend_digits c s h =
    rw (hex_value-hex_char (c / 16) (omega arith), hex_value-hex_char (c % 16) (omega arith))
      (unfold prepend in ap (λ (b : ℕ). (b ∷ s, true)) (omega arith))

decode_pair :
    (c : ℕ) (s : Bytes)
    → decode_string (encode_to_string (c ∷ s))
      ≡ prepend
          (hex_value (hex_char (c / 16)))
          (hex_value (hex_char (c % 16)))
          (decode_string (encode_to_string s))
unfolding decode_string encode_to_string
decode_pair c s = refl

pub decode_string-encode_to_string :
    (s : Bytes) → All (λ c. c < 256) s → decode_string (encode_to_string s) ≡ (s, true)
decode_string-encode_to_string [] h = unfold decode_string encode_to_string in refl
decode_string-encode_to_string (c ∷ s) h =
    decode_pair c s
    ∙ ap (prepend (hex_value (hex_char (c / 16))) (hex_value (hex_char (c % 16))))
        (decode_string-encode_to_string s h.1)
    ∙ prepend_digits c s h.0
