-- ===== src/Tests/Events.antt =====
-- Events between two managers at concrete inputs.
use setinstone.Prelude.{
  ℕ, ◌≡◌, ◌≢◌, refl, true, some, List, [], ◌∷◌, map, Bytes, codes, bytes_eq, bytes_eq_iff,
}
use setinstone.Prelude.Assoc.{lookup, erase}
use setinstone.Prelude.Outcome.{Outcome, ok}
use setinstone.BigInt.{big_bytes, set_bytes}
use setinstone.Hex.{encode_to_string, decode_string}
use setinstone.Crypto.{padded_pair, left_pad_bytes, sign, halves}
use setinstone.Address.{Address, has_keys}
use setinstone.Address.Keys.{of_ecdsa_key}
use setinstone.Message.{Message, event, sign_with_key, verify_signature, bytes, payload_bytes}
use setinstone.Message.Json.{from_json, to_json, with_payload, empty, event_type}
use setinstone.Event.Subscriptions.{get}
use setinstone.Event.Manager.{
  PubSub, Manager, get_topic_name, new_message, signed_event, emit, loop_operation,
  new_event_from_pub_sub_message, as_event,
}
use setinstone.Event.Delivery.{loop_operation-emit, new_event_from_pub_sub_message-renamed}
use setinstone.Tests.Json.{
  toy_json, toy_json-laws, members, of_object, of_payload, part, or_nil, to_object, to_payload,
  first_part, read_fields,
}
use setinstone.Tests.Samples.{toy, toy-laws, key}
use setinstone.Tests.Signatures.{key-IsKey}
use setinstone.Tests.World.{owner}

-- The topics' messages, the newest first.
abbrev pub log : PubSub (List (Bytes × Bytes))
log = record { subscribe = λ topic s. (ok tt, s); publish = λ topic js s. (ok tt, (topic, js) ∷ s) }

abbrev pub signer : Address
signer = record { keys = some (of_ecdsa_key key); address = owner }

abbrev sender : Manager ℕ
sender = record {
  id = codes "p";
  name_space = codes "n";
  signer_addr = signer;
  managed_addr = signer;
  subscriptions = [];
}

abbrev receiver : Manager ℕ
receiver = record {
  id = codes "q";
  name_space = codes "n";
  signer_addr = signer;
  managed_addr = signer;
  subscriptions = (codes "e", (codes "1", 7) ∷ []) ∷ [];
}

abbrev logged : List (Bytes × Bytes)
logged = (emit toy toy_json log 0 (codes "2026") (codes "e") (codes "b") sender []).1

emitted-logged :
    emit toy toy_json log 0 (codes "2026") (codes "e") (codes "b") sender [] ≡ (ok tt, logged)
unfolding emit has_keys bytes_eq of_ecdsa_key encode_to_string padded_pair big_bytes key
    signed_event sign_with_key sign toy to_json toy_json
emitted-logged = refl

other_peer : codes "p" ≢ codes "q"
unfolding bytes_eq
other_peer h =
    let same : bytes_eq (codes "p") (codes "q") ≡ true =
      (bytes_eq_iff (codes "p") (codes "q")).1 h in
    cc

loop_operation-emit_example :
    (js : Bytes) × (log.publish (get_topic_name toy toy_json sender) js [] ≡ (ok tt, logged))
    × (loop_operation toy toy_json (ok (codes "p", js)) receiver
        ≡ ok (
            map
              (λ c. (c, record { name = codes "e"; body = codes "b" }))
              (get (codes "e") receiver.subscriptions)))
loop_operation-emit_example =
    loop_operation-emit toy toy_json toy-laws toy_json-laws log 0 key (codes "2026") (codes "e")
      (codes "b") (codes "p") sender receiver [] logged key-IsKey refl refl emitted-logged
      other_peer

abbrev pub of_outcome : Outcome Message → Message
of_outcome (ok m) = m
of_outcome _ = empty

abbrev published : Message
published = of_outcome (
    sign_with_key toy 0 key
      (new_message toy toy_json (codes "2026") (codes "e") (codes "b") sender))

abbrev pub text_of : Message → Bytes
text_of m = of_object (members m)

abbrev renamed : Message
renamed = record published { payload = event (codes "f") (codes "b") }

published-read : from_json toy_json empty (text_of published) (some event_type) ≡ ok published
unfolding from_json toy_json lookup bytes_eq sign_with_key sign toy new_message encode_to_string
    erase big_bytes key bytes
published-read = refl

published-taken :
    new_event_from_pub_sub_message toy toy_json (text_of published)
    ≡ ok (record { name = codes "e"; body = codes "b" })
unfolding from_json new_event_from_pub_sub_message toy_json lookup bytes_eq verify_signature
    decode_string erase sign_with_key sign toy new_message encode_to_string big_bytes key bytes
    halves set_bytes left_pad_bytes padded_pair as_event with_payload payload_bytes first_part
    members of_object of_payload or_nil part read_fields to_object to_payload
published-taken = refl

renamed-read : from_json toy_json empty (text_of renamed) (some event_type) ≡ ok renamed
unfolding from_json toy_json lookup bytes_eq sign_with_key sign toy new_message encode_to_string
    erase big_bytes key bytes
renamed-read = refl

published-payload : published.payload ≡ event (codes "e") (codes "b")
unfolding sign_with_key sign toy new_message
published-payload = refl

new_event_from_pub_sub_message-renamed_example :
    new_event_from_pub_sub_message toy toy_json (text_of renamed)
    ≡ ok (record { name = codes "f"; body = codes "b" })
new_event_from_pub_sub_message-renamed_example =
    new_event_from_pub_sub_message-renamed toy toy_json (text_of published) (text_of renamed)
      published (codes "e") (codes "f") (codes "b") (record { name = codes "e"; body = codes "b" })
      published-read published-payload published-taken renamed-read
