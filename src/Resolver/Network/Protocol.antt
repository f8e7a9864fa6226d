-- ===== src/Resolver/Network/Protocol.antt =====
-- resolver/ipfs_resolver.go: a query of one node, the answer of another, and the resolution.
use setinstone.Prelude.{
  ℕ, ◌≡◌, refl, ap, ◌∙◌, Bool, true, false, none, some, List, Bytes, bytes_eq, bytes_eq_refl,
}
use setinstone.Prelude.Assoc.{Assoc}
use setinstone.Prelude.Action.{◌>>=◌}
use setinstone.Prelude.Outcome.{ok}
use setinstone.Primitives.{PrimitivesLaws, EcdsaKey}
use setinstone.Crypto.{padded_pair}
use setinstone.Crypto.RoundTrip.{IsKey}
use setinstone.Address.{has_keys}
use setinstone.Address.Keys.{of_ecdsa_key, to_ecdsa_private_key-of_ecdsa_key}
use setinstone.Message.{
  Message, query, extract_query, get_id, sign_with_key, verify_signature, query_name_request,
  query_name_response,
}
use setinstone.Message.Json.{
  JsonLaws, has_type, from_json, to_json, empty, query_type, from_json-to_json,
}
use setinstone.Message.Signature.{verify_signature-sign_with_key, sign_with_key-eq-ok}
use setinstone.Cache
use setinstone.Cache.{expiry, is_past}
use setinstone.Resolver.{get_query_name_request_from_name}
use setinstone.Resolver.Names.{request_shape}
use setinstone.Resolver.Network.{
  Env, IpfsResolver, Resource, is_managed, subscribe, subscribe_address, on_known,
  add_pending_query,
}
use setinstone.Resolver.Network.Answer.{
  answer, ended, key_pair, resolution_of, send_resolution, judged, handle_query, handle_resolution,
  handle_event, taken, dispatch,
}
use setinstone.Resolver.Network.Query.{Round, resolve}
use setinstone.Resolver.Network.Forged.{resolve-handled}

module _ {J W H S B : Type 0} (e : Env J W H S B) where
  module _ (laws : PrimitivesLaws e.primitives) (key : EcdsaKey)
      (is_key : IsKey e.primitives key) where
    -- The node that manages the address signs an answer and starts to send it.
    handle_query-sends :
        (now seed : ℕ) (timestamp value : Bytes) (msg signed : Message) (res : Resource H S)
        (r : IpfsResolver W H S B)
        → Cache.get now msg.address r.resource_cache ≡ some res
        → res.addr.keys ≡ some (of_ecdsa_key key)
        → has_keys res.addr ≡ true
        → e.store.resolve now (extract_query msg).0 r.backend ≡ ok value
        → sign_with_key e.primitives seed key (resolution_of e timestamp msg value) ≡ ok signed
        → handle_query e now timestamp seed msg r
          ≡ (ok tt, send_resolution e signed (add_pending_query e msg r))
    unfolding handle_query answer add_pending_query subscribe subscribe_address on_known key_pair
        ended ◌>>=◌
    handle_query-sends now seed timestamp value msg signed res r followed own keys stored made =
        rw
          (
            stored,
            followed,
            keys,
            own,
            to_ecdsa_private_key-of_ecdsa_key key is_key.x_fits is_key.y_fits,
            made,
            (verify_signature-sign_with_key e.primitives laws seed key _ signed is_key made).0,
          )
          refl

    -- What a message says is read back from its text.
    read_signed :
        {is_text : Message → Bool} {members : Message → Assoc J}
        (j_laws : JsonLaws e.json is_text members) (seed : ℕ) (msg signed : Message)
        (value reference js : Bytes)
        → msg.payload ≡ query value reference
        → is_text msg ≡ true
        → sign_with_key e.primitives seed key msg ≡ ok signed
        → to_json e.json signed ≡ ok js
        → from_json e.json empty js (some query_type) ≡ ok signed
    read_signed {is_text} j_laws seed msg signed value reference js pay utf8 made written =
        let (s, same) = sign_with_key-eq-ok e.primitives seed key msg signed made in
        from_json-to_json e.json j_laws signed js query_type
          (ap is_text same ∙ j_laws.text_signed msg (padded_pair key.x key.y) s utf8)
          (ap (λ q. has_type q query_type) (ap (λ m. m.payload) same ∙ pay)) written

    dispatch_request :
        (now seed : ℕ) (timestamp : Bytes) (rec : Message) (r : IpfsResolver W H S B)
        → rec.message_type ≡ query_name_request
        → dispatch e now timestamp seed rec r ≡ handle_query e now timestamp seed rec r
    unfolding dispatch
    dispatch_request now seed timestamp rec r is_request =
        let own : bytes_eq rec.message_type query_name_request ≡ true =
          ap (λ t. bytes_eq t query_name_request) is_request ∙ bytes_eq_refl query_name_request in
        rw own refl

    dispatch_response :
        (now seed : ℕ) (timestamp : Bytes) (rec : Message) (r : IpfsResolver W H S B)
        → rec.message_type ≡ query_name_response
        → dispatch e now timestamp seed rec r ≡ handle_resolution e now rec r
    unfolding dispatch bytes_eq
    dispatch_response now seed timestamp rec r is_response = rw is_response refl

    handle_event-read :
        (now seed : ℕ) (timestamp js : Bytes) (rec : Message) (r : IpfsResolver W H S B)
        → from_json e.json empty js (some query_type) ≡ ok rec
        → handle_event e now timestamp seed js r ≡ dispatch e now timestamp seed rec r
    unfolding handle_event taken
    handle_event-read now seed timestamp js rec r read = rw read refl

    handle_resolution-good :
        (now : ℕ) (msg : Message) (r : IpfsResolver W H S B)
        → verify_signature e.primitives msg ≡ ok tt
        → handle_resolution e now msg r ≡ (ok tt, (handle_resolution e now msg r).1)
    unfolding handle_resolution judged
    handle_resolution-good now msg r good = rw good refl

    -- The request for a name is answered.
    pub handle_event-request :
        {is_text : Message → Bool} {members : Message → Assoc J}
        (j_laws : JsonLaws e.json is_text members) (now seed : ℕ)
        (timestamp name value request_js : Bytes) (rec signed : Message) (res : Resource H S)
        (b : IpfsResolver W H S B)
        → get_query_name_request_from_name e.primitives name ≡ ok rec
        → is_text rec ≡ true
        → to_json e.json rec ≡ ok request_js
        → Cache.get now rec.address b.resource_cache ≡ some res
        → res.addr.keys ≡ some (of_ecdsa_key key)
        → has_keys res.addr ≡ true
        → e.store.resolve now name b.backend ≡ ok value
        → sign_with_key e.primitives seed key (resolution_of e timestamp rec value) ≡ ok signed
        → handle_event e now timestamp seed request_js b
          ≡ (ok tt, send_resolution e signed (add_pending_query e rec b))
    unfolding extract_query
    handle_event-request j_laws now seed timestamp name value request_js rec signed res b parsed
          utf8 asked followed own keys stored made =
        let (is_request, asks) = request_shape e.primitives name rec parsed in
        let says : (extract_query rec).0 ≡ name = rw asks refl in
        handle_event-read now seed timestamp request_js rec b (
          from_json-to_json e.json j_laws rec request_js query_type utf8
            (ap (λ q. has_type q query_type) asks) asked)
        ∙ dispatch_request now seed timestamp rec b is_request
        ∙ handle_query-sends now seed timestamp value rec signed res b followed own keys
            (ap (λ n. e.store.resolve now n b.backend) says ∙ stored) made

    -- A signed answer is taken as a resolution, and the name resolves to its value.
    pub handle_event-answer :
        {is_text : Message → Bool} {members : Message → Assoc J}
        (j_laws : JsonLaws e.json is_text members) (later then seed seed' : ℕ)
        (timestamp timestamp' name value answer_js : Bytes) (rec signed : Message)
        (rounds : List (Round W)) (a : IpfsResolver W H S B)
        → get_query_name_request_from_name e.primitives name ≡ ok rec
        → is_text (resolution_of e timestamp rec value) ≡ true
        → sign_with_key e.primitives seed key (resolution_of e timestamp rec value) ≡ ok signed
        → to_json e.json signed ≡ ok answer_js
        → is_managed then rec a ≡ false
        → Cache.get later (get_id e.primitives rec) a.resolution_cache ≡ none
        → is_past (expiry later a.resolution_cache.default_ttl) then ≡ false
        → (handle_event e later timestamp' seed' answer_js a
            ≡ (ok tt, (handle_resolution e later signed a).1))
          × (resolve e then name rounds (handle_resolution e later signed a).1
              ≡ (ok value, (handle_resolution e later signed a).1))
    unfolding resolution_of
    handle_event-answer j_laws later then seed seed' timestamp timestamp' name value answer_js rec
          signed rounds a parsed text made written other miss live =
        let reply : Message = resolution_of e timestamp rec value in
        let (s, same) = sign_with_key-eq-ok e.primitives seed key reply signed made in
        let read =
          read_signed j_laws seed reply signed value (get_id e.primitives rec) answer_js refl text
            made written in
        let good =
          (verify_signature-sign_with_key e.primitives laws seed key _ signed is_key made).0 in
        (
          handle_event-read later seed' timestamp' answer_js signed a read
              ∙ dispatch_response later seed' timestamp' signed a (ap (λ m. m.message_type) same)
              ∙ handle_resolution-good later signed a good,
          resolve-handled e later then name value rec signed rounds a parsed other miss live
              (ap (λ m. m.payload) same) good,
        )
