-- ===== src/Message.antt =====
-- message/messages.go, message/payload.go and resolver/messages.go: signed messages. `Payload` is an
-- interface; its constructors are the types of the program that implement it.
pub mod Signature
pub mod Json
use setinstone.Prelude.{
  ℕ, ◌≡◌, refl, [], ◌++◌, true, false, Bool, Option, none, some, Bytes, codes, ltb, if◌then◌else◌,
}
use setinstone.Prelude.Outcome.{Outcome, ok, err, message_signature_mismatch, other, ◌>>=◌}
use setinstone.Primitives.{Primitives, EcdsaKey}
use setinstone.Hex.{encode_to_string, decode_string}
use setinstone.Crypto.{padded_pair, halves, sign}

pub data Payload : Type 0 where
  no_payload : Payload
  -- StringPayload
  text : Bytes → Payload
  -- resolver.Query, its data and its reference
  query : Bytes → Bytes → Payload
  -- event.event, its name and its data
  event : Bytes → Bytes → Payload

-- `Payload.Bytes()`; a nil payload adds nothing to a message.
unfoldable pub payload_bytes : Payload → Bytes
payload_bytes no_payload = []
payload_bytes (text s) = s
payload_bytes (query d r) = d ++ r
payload_bytes (event n d) = d

pub record Message : Type 0 where
  pub timestamp : Bytes
  pub address : Bytes
  pub message_type : Bytes
  pub payload : Payload
  pub public_key : Bytes
  pub signature : Bytes

abbrev pub query_name_request : Bytes
query_name_request = codes "QUERY.NAME.REQUEST"

abbrev pub query_name_response : Bytes
query_name_response = codes "QUERY.NAME.RESPONSE"

-- `ExtractQuery`: the query of a message, and an empty one for any other payload.
unfoldable pub extract_query : Message → Bytes × Bytes
extract_query m = elim m.payload [ query d r ↦ (d, r) | _ ↦ ([], []) ]

unfoldable pub bytes : Message → Bytes
unfolding payload_bytes
bytes m = m.timestamp ++ m.address ++ m.message_type ++ payload_bytes m.payload ++ m.public_key

-- An error of encoding/hex.
abbrev pub hex_error : Outcome (Unit {0})
hex_error = err (other 0)

before : Option ℕ → Option ℕ → Bool
before (some t) (some u) = ltb t u
before _ _ = false

module _ (p : Primitives) where
  unfoldable pub get_id : Message → Bytes
  unfolding payload_bytes
  get_id m = encode_to_string (p.sha256 (m.address ++ m.message_type ++ payload_bytes m.payload))

  -- The receiver is written: the signed message is returned. `seed` is the randomness of ecdsa.Sign.
  unfoldable pub sign_with_key : ℕ → EcdsaKey → Message → Outcome Message
  sign_with_key seed key m =
      let keyed = record m { public_key = encode_to_string (padded_pair key.x key.y) } in
      do
        s ← sign p seed (p.sha256 (bytes keyed)) key
        ok (record keyed { signature = encode_to_string s })

  unfoldable pub verify_signature : Message → Outcome (Unit {0})
  verify_signature m =
      let (sig, sig_good) = decode_string m.signature in
      let (pub_key, key_good) = decode_string m.public_key in
      let (r, s) = halves sig in
      let (x, y) = halves pub_key in
      if sig_good
      then if key_good
        then if p.ecdsa_verify x y (p.sha256 (bytes m)) r s
          then ok tt
          else err message_signature_mismatch
        else hex_error
      else hex_error

  -- A time stamp that is no RFC3339 text is older than nothing, and nothing is older than it.
  unfoldable pub older : Message → Message → Bool
  unfolding before
  older m rec = before (p.parse_time m.timestamp) (p.parse_time rec.timestamp)

  -- Of two times the first is the older one when it is less.
  pub older_times :
      (m rec : Message) (t u : ℕ)
      → p.parse_time m.timestamp ≡ some t
      → p.parse_time rec.timestamp ≡ some u
      → older m rec ≡ ltb t u
  unfolding older before
  older_times m rec t u e f = rw (e, f) refl
