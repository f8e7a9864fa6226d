-- ===== src/Message/Json.antt =====
-- message/messages.go: `ToJson` and `FromJson` over encoding/json, which is a parameter. `J` is a value
-- that json.Unmarshal puts into an interface{}.
use setinstone.Prelude.{◌≡◌, Bool, true, false, Option, none, some, [], Bytes, codes}
use setinstone.Prelude.Assoc.{Assoc, lookup, erase}
use setinstone.Prelude.Outcome.{Outcome, ok, ◌>>=◌}
use setinstone.Hex.{encode_to_string}
use setinstone.Message.{Message, Payload, no_payload, text, query, event}

-- The types that are given to `FromJson`: StringPayload, resolver.Query and event.event.
pub data PayloadType : Type 0 where
  text_type query_type event_type : PayloadType

abbrev pub has_type : Payload → PayloadType → Bool
has_type (text _) text_type = true
has_type (query _ _) query_type = true
has_type (event _ _) event_type = true
has_type _ _ = false

pub record Json (J : Type 0) : Type 0 where
  pub marshal_message : Message → Outcome Bytes
  pub marshal_object : Assoc J → Outcome Bytes
  -- a nil interface is written too
  pub marshal_value : Option J → Outcome Bytes
  pub unmarshal_object : Bytes → Outcome (Assoc J)
  -- json.Unmarshal into a message that has some fields
  pub unmarshal_message : Bytes → Message → Outcome Message
  pub unmarshal_payload : PayloadType → Bytes → Outcome Payload

abbrev pub empty : Message
empty = record {
  timestamp = [];
  address = [];
  message_type = [];
  payload = no_payload;
  public_key = [];
  signature = [];
}

abbrev pub payload_key : Bytes
payload_key = codes "payload"

-- What encoding/json does with messages of UTF-8 strings, which `is_text` tells: an object has the
-- message's members, the message is read back from those but the payload, and the payload from its own.
pub record JsonLaws {J : Type 0} (j : Json J) (is_text : Message → Bool)
    (members : Message → Assoc J) : Type 0 where
  pub object_read :
      (m : Message) (js : Bytes)
      → is_text m ≡ true
      → j.marshal_message m ≡ ok js
      → j.unmarshal_object js ≡ ok (members m)
  pub message_read :
      (m : Message)
      → is_text m ≡ true
      → (js : Bytes) × (j.marshal_object (erase payload_key (members m)) ≡ ok js)
        × (j.unmarshal_message js empty ≡ ok (record m { payload = no_payload }))
  pub payload_read :
      (m : Message) (t : PayloadType)
      → is_text m ≡ true
      → has_type m.payload t ≡ true
      → (js : Bytes) × (j.marshal_value (lookup payload_key (members m)) ≡ ok js)
        × (j.unmarshal_payload t js ≡ ok m.payload)
  -- hexadecimal text is UTF-8
  pub text_signed :
      (m : Message) (key signature : Bytes)
      → is_text m ≡ true
      → is_text
          (record m { public_key = encode_to_string key; signature = encode_to_string signature })
        ≡ true

module _ {J : Type 0} (j : Json J) where
  unfoldable pub to_json : Message → Outcome Bytes
  to_json m = j.marshal_message m

  -- The payload handling of `FromJson`; a nil type leaves the payload.
  unfoldable pub with_payload : Option PayloadType → Option J → Message → Outcome Message
  with_payload none pload m = ok m
  with_payload (some t) pload m = do
    js ← j.marshal_value pload
    p ← j.unmarshal_payload t js
    ok (record m { payload = p })

  -- `FromJson` on the receiver `m`, which is returned. An error comes without the receiver, which no
  -- caller reads after it.
  unfoldable pub from_json : Message → Bytes → Option PayloadType → Outcome Message
  unfolding with_payload
  from_json m js payload_type = do
    mp ← j.unmarshal_object js
    new_js ← j.marshal_object (erase payload_key mp)
    read ← j.unmarshal_message new_js m
    with_payload payload_type (lookup payload_key mp) read

  -- A message of UTF-8 text that `ToJson` has written is read back by `FromJson` with the type of
  -- its payload.
  pub from_json-to_json :
      {is_text : Message → Bool} {members : Message → Assoc J} (laws : JsonLaws j is_text members)
      (m : Message) (js : Bytes) (t : PayloadType)
      → is_text m ≡ true
      → has_type m.payload t ≡ true
      → to_json m ≡ ok js
      → from_json empty js (some t) ≡ ok m
  unfolding to_json from_json
  from_json-to_json {members} laws m js t utf8 typed h =
      let (obj, written, read) = laws.message_read m utf8 in
      let (value, pw, pr) = laws.payload_read m t utf8 typed in
      rw (laws.object_read m js utf8 h, written, read, pw, pr)
