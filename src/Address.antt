-- ===== src/Address.antt =====
-- address/address.go and address/keypair.go: addresses, their checksums and the keys behind them.
pub mod Base58
pub mod Checksum
pub mod Keys
pub mod Malformed
pub mod Pem
pub mod Generated
pub mod Xdr
use setinstone.Prelude.{
  ℕ, ◌-◌, [], ◌∷◌, ◌++◌, Bool, true, false, ◌&&◌, not, Option, none, some, Bytes, bytes_eq, leb,
  ◌==◌, if◌then◌else◌, length, take, drop,
}
use setinstone.Prelude.Outcome.{Outcome, ok, err, panic, invalid_checksum, ◌>>=◌}
use setinstone.Primitives.{Primitives}
use setinstone.Hex.{decode_string}
use Base58.{base58_encode, base58_decode}

pub record KeyPair : Type 0 where
  pub private_key : Bytes
  pub public_key : Bytes

pub record Address : Type 0 where
  pub keys : Option KeyPair
  pub address : Bytes

abbrev pub version : ℕ
version = 0

abbrev pub address_checksum_len : ℕ
address_checksum_len = 4

-- `a.Keys != nil && a.Keys.PublicKey != "" && a.Keys.PrivateKey != ""`
unfoldable pub has_keys : Address → Bool
has_keys a = elim a.keys [
  | none ↦ false
  | some k ↦ not (bytes_eq k.public_key []) && not (bytes_eq k.private_key [])
]

-- Strings are values, so that the copy of a pair is the pair; a nil receiver panics.
unfoldable pub clone : Address → Outcome Address
clone a = elim a.keys [
  | none ↦ panic
  | some k ↦ ok (record {
    keys = some (record { private_key = k.private_key; public_key = k.public_key });
    address = a.address;
  })
]

module _ (p : Primitives) where
  unfoldable pub checksum : Bytes → Bytes
  checksum payload = take address_checksum_len (p.sha256 (p.sha256 payload))

  unfoldable pub hash_pub_key : Bytes → Bytes
  hash_pub_key pub_key = p.ripemd160 (p.sha256 pub_key)

  abbrev pub full_payload : Bytes → Bytes
  full_payload pub_key =
      let versioned_payload = version ∷ hash_pub_key pub_key in
      versioned_payload ++ checksum versioned_payload

  -- The hashes return no error.
  unfoldable pub generate_address_hash : Bytes → Outcome Bytes
  generate_address_hash pub_key = base58_encode (full_payload pub_key)

  -- The test of `IsValid` on the decoded bytes.
  abbrev pub check_payload : Bytes → Outcome (Unit {0})
  check_payload pub_key_hash =
      let split = length pub_key_hash - address_checksum_len in
      if leb (length pub_key_hash) address_checksum_len
      then err invalid_checksum
      else if bytes_eq (checksum (take split pub_key_hash)) (drop split pub_key_hash)
      then ok tt
      else err invalid_checksum

  -- `ok tt` is (true, nil), and an error comes with false.
  unfoldable pub is_valid : Bytes → Outcome (Unit {0})
  is_valid addr =
      if length addr == 0 then err invalid_checksum else (base58_decode addr >>= check_payload)

  -- A key that is no hexadecimal text matches nothing.
  unfoldable pub matches_pub_key : Bytes → Bytes → Outcome Bool
  unfolding generate_address_hash
  matches_pub_key addr pub_key =
      let (pk, good) = decode_string pub_key in
      if good then (do hash ← generate_address_hash pk; ok (bytes_eq addr hash)) else ok false

  -- The decoding error is dropped: what was read before it is used.
  unfoldable pub new_address_for_keys : KeyPair → Outcome Address
  unfolding generate_address_hash
  new_address_for_keys k = do
    hash ← generate_address_hash (decode_string k.public_key).0
    ok (record { keys = some k; address = hash })
