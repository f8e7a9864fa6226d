-- ===== src/Hex.antt =====
-- encoding/hex of the standard library, as the program uses it: `EncodeToString` writes lower case,
-- `DecodeString` reads both cases and returns, with an error, the bytes before it.
pub mod RoundTrip
use setinstone.Prelude.{
  ℕ, ◌+◌, ◌-◌, ◌*◌, ◌/◌, ◌%◌, [], ◌∷◌, Bool, true, false, ◌&&◌, Option, none, some, Bytes, ltb, leb,
  if◌then◌else◌,
}

hex_char : ℕ → ℕ
hex_char d = if ltb d 10 then b'0' + d else b'a' + (d - 10)

unfoldable pub encode_to_string : Bytes → Bytes
unfolding hex_char
encode_to_string [] = []
encode_to_string (c ∷ s) = hex_char (c / 16) ∷ hex_char (c % 16) ∷ encode_to_string s

hex_value : ℕ → Option ℕ
hex_value c =
    if leb b'0' c && leb c b'9'
    then some (c - b'0')
    else if leb b'a' c && leb c b'f'
    then some (c - b'a' + 10)
    else if leb b'A' c && leb c b'F'
    then some (c - b'A' + 10)
    else none

-- One byte in front of the rest, if both of its digits are good.
prepend : Option ℕ → Option ℕ → Bytes × Bool → Bytes × Bool
prepend (some a) (some b) (s, good) = ((a * 16 + b) ∷ s, good)
prepend _ _ rest = ([], false)

-- The bytes, and whether the whole text was read: an odd length is an error too.
unfoldable pub decode_string : Bytes → Bytes × Bool
unfolding hex_value prepend
decode_string [] = ([], true)
decode_string (c ∷ []) = ([], false)
decode_string (c ∷ d ∷ s) = prepend (hex_value c) (hex_value d) (decode_string s)
