-- ===== src/Resolver/Network/Live/Answered.antt =====
-- resolver/ipfs_resolver.go over event/manager.go: a name that one node resolves with the answer of
-- another, from the query to the value.
use setinstone.Prelude.{
  ℕ, ◌≡◌, ◌≢◌, refl, sym, ap, ◌∙◌, Bool, true, false, none, some, [], ◌∷◌, ◌++◌, List, Bytes, All,
  bytes_eq_refl, codes, get_elem?,
}
use setinstone.Prelude.Assoc.{Assoc, lookup, lookup-insert}
use setinstone.Prelude.Outcome.{ok}
use setinstone.Primitives.{Primitives, PrimitivesLaws, EcdsaKey}
use setinstone.Crypto.RoundTrip.{IsKey}
use setinstone.Address.{Address, has_keys}
use setinstone.Address.Keys.{of_ecdsa_key}
use setinstone.Message.{
  Message, extract_query, get_id, sign_with_key, query_name_request, query_name_response,
}
use setinstone.Message.Json.{Json, JsonLaws, to_json}
use setinstone.Message.Signature.{sign_with_key-eq-ok}
use setinstone.Cache
use setinstone.Cache.{expiry, is_past}
use setinstone.Event.Manager.{Manager, PubSub, get_topic_name, new_message}
use setinstone.Event.Loop.{Round, IsNoise}
use setinstone.Resolver.{get_query_name_request_from_name}
use setinstone.Resolver.Backend.{Backend}
use setinstone.Resolver.Network.{
  IpfsResolver, Resource, add_pending_query, remove_pending_query, is_managed, keys_of_found,
}
use setinstone.Resolver.Network.Answer.{resolution_of, send_resolution, woken, handle_resolution}
use setinstone.Resolver.Network.Query
use setinstone.Resolver.Network.Query.{ask, published, resolve}
use setinstone.Resolver.Network.Protocol.{handle_event-request, handle_event-answer}
use setinstone.Resolver.Network.Live.{Bus, Given, Handle, emit, listen, live_env}
use setinstone.Resolver.Network.Live.Said.{emit-network, ask-said, woken-said}
use setinstone.Resolver.Network.Live.Attached.{IsStation}
use setinstone.Resolver.Network.Live.Spoken.{listen-emit}

-- The address as `Subscribe` follows it, and as its owner manages it.
abbrev pub foreign : Message → Address
foreign rec = record { keys = none; address = rec.address }

abbrev pub owned : EcdsaKey → Message → Address
owned key rec = record { keys = some (of_ecdsa_key key); address = rec.address }

module _ {J N B : Type 0} (p : Primitives) (j : Json J) (ps : PubSub N) (uuid : ℕ → Bytes)
    (store : Backend B) where
  -- A node that follows an address with its own key pair as the signer of its events.
  pub record IsSpeaker (addr : Address) (r : IpfsResolver (Bus N) ℕ Handle B) (key : EcdsaKey)
      (res : Resource ℕ Handle) (m : Manager (Unit {0})) : Type 0 where
    pub station : IsStation p j ps uuid store addr r res m
    pub is_key : IsKey p key
    pub signs : r.signer_addr.keys ≡ some (of_ecdsa_key key)

  own_key :
      (addr : Address) (r : IpfsResolver (Bus N) ℕ Handle B) (key : EcdsaKey)
      (res : Resource ℕ Handle) (m : Manager (Unit {0}))
      → IsSpeaker addr r key res m
      → m.signer_addr.keys ≡ some (of_ecdsa_key key)
  own_key addr r key res m s = ap (λ (x : Address). x.keys) s.station.signer ∙ s.signs

  module _ {is_text : Message → Bool} {members : Message → Assoc J} (laws : PrimitivesLaws p)
      (j_laws : JsonLaws j is_text members) (key key_a key_b : EcdsaKey) (rec signed : Message)
      (name value : Bytes) (res_a res_b : Resource ℕ Handle) (m_a m_b : Manager (Unit {0}))
      (a b : IpfsResolver (Bus N) ℕ Handle B) (given_a given_b : Given) (gives_up : Bool)
      (is_key : IsKey p key) (asker : IsSpeaker (foreign rec) a key_a res_a m_a)
      (owner : IsSpeaker (owned key rec) b key_b res_b m_b)
      (same_space : a.events.factory.name_space ≡ b.events.factory.name_space)
      (apart : a.events.factory.id ≢ b.events.factory.id)
      (parsed : get_query_name_request_from_name p name ≡ ok rec)
      (made : sign_with_key p given_b.seed key
          (resolution_of (live_env p j ps uuid store) given_b.timestamp rec value)
        ≡ ok signed) where
    same_topic : get_topic_name p j m_a ≡ get_topic_name p j m_b
    unfolding get_topic_name
    same_topic =
        let space = asker.station.space ∙ same_space ∙ sym owner.station.space in
        let address : m_a.managed_addr.address ≡ m_b.managed_addr.address =
          ap (λ (x : Address). x.address) (asker.station.managed)
          ∙ sym (ap (λ (x : Address). x.address) (owner.station.managed)) in
        λ i. space i ++ (codes "-" ++ address i)

    other_node : m_a.id ≢ m_b.id
    other_node e = apart (sym asker.station.node ∙ e ∙ owner.station.node)

    -- The node b behind the request.
    abbrev answering : IpfsResolver (Bus N) ℕ Handle B
    answering =
        send_resolution (live_env p j ps uuid store) signed
          (add_pending_query (live_env p j ps uuid store) rec b)

    request-heard :
        (now : ℕ) (request_js : Bytes) (a' : IpfsResolver (Bus N) ℕ Handle B)
        (noise : List (Round Given))
        → to_json j rec ≡ ok request_js
        → is_text rec ≡ true
        → is_text (new_message p j a.events.clock query_name_request request_js m_a) ≡ true
        → has_keys (owned key rec) ≡ true
        → store.resolve given_b.now name b.backend ≡ ok value
        → ask (live_env p j ps uuid store) now rec a ≡ (ok true, a')
        → All (IsNoise p j m_b) noise
        → (text : Bytes) × (ps.publish (get_topic_name p j m_b) text a.events.network
            ≡ (ok tt, a'.events.network))
          × (listen p j ps uuid store res_b.evm
                (noise
                  ++ record { arrival = ok (m_a.id, text); given = given_b; gives_up = gives_up }
                    ∷ [])
                b
              ≡ (ok tt, answering))
    unfolding live_env
    request-heard now request_js a' noise written utf8 event_text keys stored asked quiet =
        let (js, e, said, _) =
          ask-said p j ps uuid store now rec res_a a a' (asker.station.followed now) asked in
        let same : js ≡ request_js = cc (e, written) in
        let (text, published, heard) =
          listen-emit p j ps uuid store laws j_laws key_a res_a.evm res_b.evm query_name_request
            request_js m_a m_b a.events a'.events noise given_b gives_up b answering asker.is_key
            (own_key (foreign rec) a key_a res_a m_a asker) event_text asker.station.manager
            (ap (λ t. emit p j ps uuid res_a.evm query_name_request t a.events) (sym same) ∙ said)
            owner.station.manager owner.station.requests other_node quiet
            (handle_event-request (live_env p j ps uuid store) laws key is_key j_laws given_b.now
              given_b.seed given_b.timestamp name value request_js rec signed res_b b parsed utf8
              written (owner.station.followed given_b.now)
              (ap (λ (x : Address). x.keys) (owner.station.own))
              (ap has_keys (owner.station.own) ∙ keys) stored made) in
        (text, ap (λ t. ps.publish t text a.events.network) (sym same_topic) ∙ published, heard)

    signed_fields : (signed.address ≡ rec.address) × ((extract_query signed).1 ≡ get_id p rec)
    unfolding resolution_of extract_query live_env
    signed_fields =
        let (s, same) =
          sign_with_key-eq-ok p given_b.seed key
            (resolution_of (live_env p j ps uuid store) given_b.timestamp rec value) signed made in
        (ap (λ (x : Message). x.address) same, ap (λ (x : Message). (extract_query x).1) same)

    answer-sent :
        (later : ℕ) (answer_js : Bytes) (w : Bus N)
        → to_json j signed ≡ ok answer_js
        → emit p j ps uuid res_b.evm query_name_response answer_js b.events ≡ (ok tt, w)
        → woken (live_env p j ps uuid store) later signed answering
          ≡ (ok tt, record (remove_pending_query signed answering) { events = w })
    unfolding send_resolution add_pending_query live_env
    answer-sent later answer_js w written said =
        let pending : lookup (extract_query signed).1 answering.pending ≡ some true =
          ap (λ k. lookup k answering.pending) signed_fields.1
          ∙ lookup-insert (get_id p rec) (get_id p rec) true b.pending
          ∙ rw (bytes_eq_refl (get_id p rec)) refl in
        woken-said p j ps uuid store later signed answer_js res_b answering w written pending
          (ap (λ t. Cache.get later t b.resource_cache) signed_fields.0
            ∙ owner.station.followed later)
          said

    -- The asking node, wherever the network is.
    abbrev asking : Bus N → IpfsResolver (Bus N) ℕ Handle B
    asking w = record a { events = w }

    not_managed : (w : Bus N) (now : ℕ) → is_managed now rec (asking w) ≡ false
    unfolding is_managed keys_of_found has_keys
    not_managed w now = rw (asker.station.followed now, asker.station.own) refl

    answer-heard :
        (then : ℕ) (answer_js : Bytes) (w w' : Bus N) (noise : List (Round Given))
        (rounds : List (Query.Round (Bus N)))
        → to_json j signed ≡ ok answer_js
        → is_text (resolution_of (live_env p j ps uuid store) given_b.timestamp rec value) ≡ true
        → is_text (new_message p j b.events.clock query_name_response answer_js m_b) ≡ true
        → emit p j ps uuid res_b.evm query_name_response answer_js b.events ≡ (ok tt, w)
        → get_elem? w'.managers res_a.evm ≡ some m_a
        → Cache.get given_a.now (get_id p rec) a.resolution_cache ≡ none
        → is_past (expiry given_a.now a.resolution_cache.default_ttl) then ≡ false
        → All (IsNoise p j m_a) noise
        → (text : Bytes) × (ps.publish (get_topic_name p j m_a) text b.events.network
            ≡ (ok tt, w.network))
          × (a2 : IpfsResolver (Bus N) ℕ Handle B) × (listen p j ps uuid store res_a.evm
                (noise
                  ++ record { arrival = ok (m_b.id, text); given = given_a; gives_up = gives_up }
                    ∷ [])
                (asking w')
              ≡ (ok tt, a2))
          × (resolve (live_env p j ps uuid store) then name rounds a2 ≡ (ok value, a2))
    unfolding live_env
    answer-heard then answer_js w w' noise rounds written utf8 event_text said found miss live
          quiet =
        let a2 : IpfsResolver (Bus N) ℕ Handle B =
          (handle_resolution (live_env p j ps uuid store) given_a.now signed (asking w')).1 in
        let (handled, known) =
          handle_event-answer (live_env p j ps uuid store) laws key is_key j_laws given_a.now then
            given_b.seed given_a.seed given_b.timestamp given_a.timestamp name value answer_js rec
            signed rounds (asking w') parsed utf8 made written (not_managed w' then) miss live in
        let (text, published, heard) =
          listen-emit p j ps uuid store laws j_laws key_b res_b.evm res_a.evm query_name_response
            answer_js m_b m_a b.events w noise given_a gives_up (asking w') a2 owner.is_key
            (own_key (owned key rec) b key_b res_b m_b owner) event_text owner.station.manager said
            found asker.station.responses (λ e. other_node (sym e)) quiet handled in
        (
          text,
          ap (λ t. ps.publish t text b.events.network) same_topic ∙ published,
          a2,
          heard,
          known,
        )

    -- A query is answered, from the call to the value, through the event managers of two nodes with
    -- keys of their own, different identifiers and one name space: one that follows an address
    -- without its keys, and one that follows it with them and has a value for a name under it. When
    -- the first one asks for that name without an error, it publishes a text on the topic of the
    -- second one, whose event loop, whatever noise comes before (failed waits that are tried again,
    -- own messages, what is no signed event, events without callbacks), then starts to send a
    -- signed answer. When the sleep of the answer ends and its emission succeeds, a text is
    -- published on the topic of the first one, whose loop takes it in, behind any such noise; and
    -- from then until what it has cached expires, the name resolves there to the value. The
    -- messages are encoded, of UTF-8 text, and no answer was cached.
    pub resolve-listen :
        (now later then : ℕ) (request_js answer_js : Bytes) (a' : IpfsResolver (Bus N) ℕ Handle B)
        (w : Bus N) (noise_a noise_b : List (Round Given)) (rounds : List (Query.Round (Bus N)))
        → to_json j rec ≡ ok request_js
        → to_json j signed ≡ ok answer_js
        → is_text rec ≡ true
        → is_text (resolution_of (live_env p j ps uuid store) given_b.timestamp rec value) ≡ true
        → is_text (new_message p j a.events.clock query_name_request request_js m_a) ≡ true
        → is_text (new_message p j b.events.clock query_name_response answer_js m_b) ≡ true
        → has_keys (owned key rec) ≡ true
        → store.resolve given_b.now name b.backend ≡ ok value
        → Cache.get given_a.now (get_id p rec) a.resolution_cache ≡ none
        → is_past (expiry given_a.now a.resolution_cache.default_ttl) then ≡ false
        → ask (live_env p j ps uuid store) now rec a ≡ (ok true, a')
        → emit p j ps uuid res_b.evm query_name_response answer_js b.events ≡ (ok tt, w)
        → All (IsNoise p j m_a) noise_a
        → All (IsNoise p j m_b) noise_b
        → (request_text answer_text : Bytes) × (ps.publish
              (get_topic_name p j m_b)
              request_text
              a.events.network
            ≡ (ok tt, a'.events.network))
          × (listen p j ps uuid store res_b.evm
                (noise_b
                  ++ record {
                    arrival = ok (m_a.id, request_text);
                    given = given_b;
                    gives_up = gives_up;
                  }
                    ∷ [])
                b
              ≡ (ok tt, answering))
          × (woken (live_env p j ps uuid store) later signed answering
              ≡ (ok tt, record (remove_pending_query signed answering) { events = w }))
          × (ps.publish (get_topic_name p j m_a) answer_text b.events.network ≡ (ok tt, w.network))
          × (a2 : IpfsResolver (Bus N) ℕ Handle B) × (listen p j ps uuid store res_a.evm
                (noise_a
                  ++ record {
                    arrival = ok (m_b.id, answer_text);
                    given = given_a;
                    gives_up = gives_up;
                  }
                    ∷ [])
                a'
              ≡ (ok tt, a2))
          × (resolve (live_env p j ps uuid store) then name rounds a2 ≡ (ok value, a2))
    resolve-listen now later then request_js answer_js a' w noise_a noise_b rounds written written'
          utf8 utf8' text_a text_b keys stored miss live asked said quiet_a quiet_b =
        let (js, _, emitted, kept) =
          ask-said p j ps uuid store now rec res_a a a' (asker.station.followed now) asked in
        let network =
          emit-network p j ps uuid store res_a.evm query_name_request js m_a a.events a'.events
            asker.station.manager emitted in
        let found : get_elem? a'.events.managers res_a.evm ≡ some m_a =
          ap (λ (x : Bus N). get_elem? x.managers res_a.evm) network ∙ asker.station.manager in
        let (request_text, sent_out, heard) =
          request-heard now request_js a' noise_b written utf8 text_a keys stored asked quiet_b in
        let (answer_text, sent_back, a2, heard', known) =
          answer-heard then answer_js w a'.events noise_a rounds written' utf8' text_b said found
            miss live quiet_a in
        (
          request_text,
          answer_text,
          sent_out,
          heard,
          answer-sent later answer_js w written' said,
          sent_back,
          a2,
          ap (listen p j ps uuid store res_a.evm _) kept ∙ heard',
          known,
        )
