-- ===== src/Tests/Json.antt =====
-- An encoder of messages that computes, in place of encoding/json: each part stands behind its length.
use setinstone.Prelude.{
  ◌≡◌, refl, sym, ap, ◌∙◌, true, Option, none, some, [], ◌∷◌, ◌++◌, Bytes, codes, length, take,
  drop, take-length_append, drop-length_append, bytes_eq,
}
use setinstone.Prelude.Assoc.{Assoc, lookup, erase}
use setinstone.Prelude.Outcome.{Outcome, ok, err, other}
use setinstone.Message.{Message, Payload, no_payload, text, query, event}
use setinstone.Message.Json.{
  Json, JsonLaws, PayloadType, text_type, query_type, event_type, has_type, empty, payload_key,
}

unfoldable pub part : Bytes → Bytes → Bytes
part s rest = length s ∷ s ++ rest

unfoldable pub first_part : Bytes → Bytes × Bytes
first_part [] = ([], [])
first_part (n ∷ s) = (take n s, drop n s)

unfoldable pub of_payload : Payload → Bytes
unfolding part
of_payload no_payload = []
of_payload (text s) = part s []
of_payload (query d r) = part d (part r [])
of_payload (event n d) = part n (part d [])

unfoldable pub to_payload : PayloadType → Bytes → Payload
unfolding first_part
to_payload text_type js = text (first_part js).0
to_payload query_type js = let (d, rest) = first_part js in query d (first_part rest).0
to_payload event_type js = let (n, rest) = first_part js in event n (first_part rest).0

unfoldable pub members : Message → Assoc Bytes
unfolding of_payload
members m =
    (codes "t", m.timestamp)
    ∷ (codes "a", m.address)
    ∷ (codes "m", m.message_type)
    ∷ (codes "k", m.public_key)
    ∷ (codes "s", m.signature)
    ∷ (payload_key, of_payload m.payload)
    ∷ []

unfoldable pub or_nil : Option Bytes → Bytes
or_nil none = []
or_nil (some s) = s

unfoldable pub of_object : Assoc Bytes → Bytes
unfolding part or_nil
of_object o = part (or_nil (lookup (codes "t") o)) (
    part (or_nil (lookup (codes "a") o)) (
      part (or_nil (lookup (codes "m") o)) (
        part (or_nil (lookup (codes "k") o))
          (part (or_nil (lookup (codes "s") o)) (part (or_nil (lookup payload_key o)) [])))))

unfoldable pub to_object : Bytes → Assoc Bytes
unfolding first_part
to_object js =
    let (t, js1) = first_part js in
    let (a, js2) = first_part js1 in
    let (m, js3) = first_part js2 in
    let (k, js4) = first_part js3 in
    let (s, js5) = first_part js4 in
    (codes "t", t)
    ∷ (codes "a", a)
    ∷ (codes "m", m)
    ∷ (codes "k", k)
    ∷ (codes "s", s)
    ∷ (payload_key, (first_part js5).0)
    ∷ []

unfoldable pub read_fields : Assoc Bytes → Message → Message
unfolding or_nil
read_fields o m = record m {
  timestamp = or_nil (lookup (codes "t") o);
  address = or_nil (lookup (codes "a") o);
  message_type = or_nil (lookup (codes "m") o);
  public_key = or_nil (lookup (codes "k") o);
  signature = or_nil (lookup (codes "s") o);
}

some_value : Option Bytes → Outcome Bytes
some_value none = err (other 2)
some_value (some v) = ok v

unfoldable pub toy_json : Json Bytes
unfolding members of_object to_object read_fields to_payload some_value
toy_json = record {
  marshal_message = λ m. ok (of_object (members m));
  marshal_object = λ o. ok (of_object o);
  marshal_value = some_value;
  unmarshal_object = λ js. ok (to_object js);
  unmarshal_message = λ js m. ok (read_fields (to_object js) m);
  unmarshal_payload = λ t js. ok (to_payload t js);
}

first_part-part : (s rest : Bytes) → first_part (part s rest) ≡ (s, rest)
unfolding first_part part
first_part-part s rest =
    rw (take-length_append (length s) s rest refl, drop-length_append (length s) s rest refl)

to_payload-of_payload :
    (q : Payload) (t : PayloadType) → has_type q t ≡ true → to_payload t (of_payload q) ≡ q
unfolding to_payload of_payload
to_payload-of_payload (text s) text_type h = ap (λ x. text x.0) (first_part-part s [])
to_payload-of_payload (query d r) query_type h =
    ap (λ x. query x.0 (first_part x.1).0) (first_part-part d (part r []))
    ∙ ap (λ x. query d x.0) (first_part-part r [])
to_payload-of_payload (event n d) event_type h =
    ap (λ x. event x.0 (first_part x.1).0) (first_part-part n (part d []))
    ∙ ap (λ x. event n x.0) (first_part-part d [])
to_payload-of_payload _ _ h = cc

parts : Bytes → Bytes → Bytes → Bytes → Bytes → Bytes → Bytes
parts t a m k s q = part t (part a (part m (part k (part s (part q [])))))

object : Bytes → Bytes → Bytes → Bytes → Bytes → Bytes → Assoc Bytes
object t a m k s q =
    (codes "t", t)
    ∷ (codes "a", a)
    ∷ (codes "m", m)
    ∷ (codes "k", k)
    ∷ (codes "s", s)
    ∷ (payload_key, q)
    ∷ []

to_object-parts : (t a m k s q : Bytes) → to_object (parts t a m k s q) ≡ object t a m k s q
unfolding to_object parts object
to_object-parts t a m k s q = rw (
  first_part-part t (part a (part m (part k (part s (part q []))))),
  first_part-part a (part m (part k (part s (part q [])))),
  first_part-part m (part k (part s (part q []))),
  first_part-part k (part s (part q [])),
  first_part-part s (part q []),
  first_part-part q [],
)

written :
    (m : Message)
    → of_object (members m)
      ≡ parts m.timestamp m.address m.message_type m.public_key m.signature (of_payload m.payload)
unfolding of_object members or_nil lookup bytes_eq parts
written m = refl

rest_written :
    (m : Message)
    → of_object (erase payload_key (members m))
      ≡ parts m.timestamp m.address m.message_type m.public_key m.signature []
unfolding of_object members or_nil lookup erase bytes_eq parts
rest_written m = refl

fields_read :
    (m : Message)
    → read_fields (object m.timestamp m.address m.message_type m.public_key m.signature []) empty
      ≡ record m { payload = no_payload }
unfolding read_fields object or_nil lookup bytes_eq
fields_read m = refl

own_object :
    (m : Message)
    → object m.timestamp m.address m.message_type m.public_key m.signature (of_payload m.payload)
      ≡ members m
unfolding object members
own_object m = refl

own_payload : (m : Message) → lookup payload_key (members m) ≡ some (of_payload m.payload)
unfolding members lookup bytes_eq
own_payload m = refl

pub toy_json-laws : JsonLaws toy_json (λ _. true) members
unfolding toy_json some_value
toy_json-laws = record {
  object_read = λ m js u h.
      let same : of_object (members m) ≡ js = cc h in
      ap (λ x. ok (to_object x)) (sym same ∙ written m)
      ∙ ap ok (to_object-parts _ _ _ _ _ _ ∙ own_object m);
  message_read = λ m u. (
    of_object (erase payload_key (members m)),
    refl,
    ap (λ x. ok (read_fields (to_object x) empty)) (rest_written m)
        ∙ ap (λ o. ok (read_fields o empty)) (to_object-parts _ _ _ _ _ _)
        ∙ ap ok (fields_read m),
  );
  payload_read = λ m t u h. (
    of_payload m.payload,
    ap some_value (own_payload m),
    ap ok (to_payload-of_payload m.payload t h),
  );
  text_signed = λ m k s u. refl;
}
