-- ===== src/Address/Keys.antt =====
-- address/keypair.go: a key pair is the hexadecimal text of an ECDSA key.
use setinstone.Prelude.{◌^◌, ◌<◌, ◌≡◌}
use setinstone.BigInt.{set_bytes, big_bytes}
use setinstone.Primitives.{EcdsaKey}
use setinstone.Hex.{encode_to_string, decode_string}
use setinstone.Hex.RoundTrip.{decode_string-encode_to_string}
use setinstone.Crypto.{padded_pair, halves}
use setinstone.Crypto.RoundTrip.{
  set_bytes-big_bytes, big_bytes-IsBytes, padded_pair-IsBytes, halves-padded_pair,
}
use setinstone.Address.{KeyPair}

-- The end of `NewKeyPair` and of `NewFromPem`, behind the generated or parsed key.
unfoldable pub of_ecdsa_key : EcdsaKey → KeyPair
of_ecdsa_key k = record {
  private_key = encode_to_string (big_bytes k.secret);
  public_key = encode_to_string (padded_pair k.x k.y);
}

-- `ToEcdsaPrivateKey`; decoding errors are dropped.
unfoldable pub to_ecdsa_private_key : KeyPair → EcdsaKey
to_ecdsa_private_key k =
    let (x, y) = halves (decode_string k.public_key).0 in
    record { secret = set_bytes (decode_string k.private_key).0; x = x; y = y }

-- A key whose coordinates are below 2^256 is read back from its key pair, leading zero bytes
-- included.
pub to_ecdsa_private_key-of_ecdsa_key :
    (k : EcdsaKey) → k.x < 256 ^ 32 → k.y < 256 ^ 32 → to_ecdsa_private_key (of_ecdsa_key k) ≡ k
unfolding to_ecdsa_private_key of_ecdsa_key
to_ecdsa_private_key-of_ecdsa_key k hx hy = rw (
  decode_string-encode_to_string (padded_pair k.x k.y) (padded_pair-IsBytes k.x k.y),
  halves-padded_pair k.x k.y hx hy,
  decode_string-encode_to_string (big_bytes k.secret) (big_bytes-IsBytes k.secret),
  set_bytes-big_bytes k.secret,
)
