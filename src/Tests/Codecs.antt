-- ===== src/Tests/Codecs.antt =====
-- Hex, Base58, addresses, signatures and messages at concrete inputs.
use setinstone.Prelude.{
  ◌<◌, ◌≡◌, ◌≢◌, refl, [], ◌∷◌, ◌++◌, true, arith, Bytes, codes, map, All, ◌↔◌, replicate,
}
use setinstone.Prelude.Outcome.{ok, panic, ◌>>=◌}
use setinstone.Prelude.Int.{negsuc}
use setinstone.Hex.{encode_to_string}
use setinstone.Crypto
use setinstone.Crypto.{padded_pair, left_pad_bytes, halves, sign}
use setinstone.Crypto.RoundTrip.{IsKey, halves-padded_pair}
use setinstone.Crypto.RoundTrip
use setinstone.Message.{Message, text}
use setinstone.Address.{
  full_payload, generate_address_hash, is_valid, matches_pub_key, checksum, hash_pub_key,
}
use setinstone.Address.Base58.{
  base58_encode, base58_decode, one_char, digit_char, index_byte, b58_alphabet,
}
use setinstone.Address.Base58.RoundTrip.{HasNonZero, after, base58_decode-base58_encode}
use setinstone.Address.Checksum.{is_valid_iff, generate_address_hash-IsValid, matches_pub_key_iff}
use setinstone.Address.Malformed.{is_valid-foreign, is_valid-ones}
use setinstone.Tests.Samples.{toy, toy-laws, key}

key-IsKey : IsKey toy key
unfolding toy key
key-IsKey = record { pair = refl; x_fits = omega arith; y_fits = omega arith }

-- The signature of the bytes 1, 2 with the key.
abbrev signature : Bytes
signature = padded_pair 5 3

signature-made : sign toy 0 (1 ∷ 2 ∷ []) key ≡ ok signature
unfolding sign toy key
signature-made = refl

verify_signature-sign_example :
    All (λ c. c < 256) signature
    × (Crypto.verify_signature toy signature (padded_pair key.x key.y) (1 ∷ 2 ∷ []) ≡ true)
verify_signature-sign_example =
    RoundTrip.verify_signature-sign toy toy-laws 0 (1 ∷ 2 ∷ []) key signature key-IsKey
      signature-made

base58_decode-base58_encode_example :
    (base58_encode (0 ∷ 0 ∷ 7 ∷ 0 ∷ []) >>= base58_decode) ≡ ok (0 ∷ 0 ∷ 7 ∷ 0 ∷ [])
base58_decode-base58_encode_example =
    base58_decode-base58_encode (0 ∷ 0 ∷ 7 ∷ 0 ∷ []) (omega arith)
      (after 2 7 (0 ∷ []) (0 ∷ 0 ∷ 7 ∷ 0 ∷ []) (omega arith) refl)

abbrev letter : Message
letter = record {
  timestamp = codes "2026";
  address = codes "1abc";
  message_type = codes "T";
  payload = text (codes "hi");
  public_key = [];
  signature = [];
}

abbrev signed_letter : Message
signed_letter = record letter {
  public_key = encode_to_string (padded_pair 5 9);
  signature = encode_to_string (padded_pair 5 115);
}

abbrev public_key : Bytes
public_key = 1 ∷ 2 ∷ 3 ∷ []

payload-HasNonZero : HasNonZero (full_payload toy public_key)
unfolding toy hash_pub_key checksum
payload-HasNonZero =
    after 1 37 (replicate 19 1 ++ 87 ∷ 1 ∷ 1 ∷ 1 ∷ []) (full_payload toy public_key) (omega arith)
      refl

generate_address_hash-IsValid_example :
    (a : Bytes) × (generate_address_hash toy public_key ≡ ok a)
    × (is_valid toy a ≡ ok tt)
    × (base58_decode a ≡ ok (full_payload toy public_key))
generate_address_hash-IsValid_example =
    generate_address_hash-IsValid toy toy-laws public_key payload-HasNonZero

matches_pub_key_iff_example :
    ((matches_pub_key toy (codes "1abc") (encode_to_string public_key) ≡ ok true)
      ↔ (generate_address_hash toy public_key ≡ ok (codes "1abc")))
    × (matches_pub_key toy (codes "1abc") (encode_to_string public_key) ≡ ok true
        → is_valid toy (codes "1abc") ≡ ok tt)
matches_pub_key_iff_example =
    matches_pub_key_iff toy toy-laws public_key (codes "1abc") (omega arith) payload-HasNonZero

is_valid_iff_example : (is_valid toy (codes "2abc") ≡ ok tt) ↔ (
    (payload : Bytes) × (payload ≢ [])
    × (base58_decode (codes "2abc") ≡ ok (payload ++ checksum toy payload)))
is_valid_iff_example = is_valid_iff toy toy-laws (codes "2abc")

foreign : index_byte b58_alphabet b'0' ≡ negsuc 0
unfolding index_byte
foreign = refl

is_valid-foreign_example :
    is_valid toy (map digit_char (1 ∷ []) ++ digit_char 4 ∷ b'0' ∷ [])
    ≡ is_valid toy (map digit_char (1 ∷ []) ++ digit_char 3 ∷ b'z' ∷ [])
is_valid-foreign_example =
    is_valid-foreign toy 1 [] 3 b'0' [] (omega arith) (omega arith) (omega arith) foreign

is_valid-ones_example : is_valid toy (replicate 3 one_char) ≡ panic
is_valid-ones_example = is_valid-ones toy 2
