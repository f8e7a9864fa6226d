-- ===== src/Resolver/Network/Live/Spoken.antt =====
-- resolver/ipfs_resolver.go over event/manager.go: what the manager of one node emits, and the loop of
-- a manager of another node.
use setinstone.Prelude.{
  ℕ, ◌≡◌, ◌≢◌, refl, sym, ap, ◌∙◌, Bool, true, some, [], ◌∷◌, ◌++◌, List, Bytes, All, get_elem?,
  map,
}
use setinstone.Prelude.Assoc.{Assoc}
use setinstone.Prelude.Outcome.{ok}
use setinstone.Primitives.{Primitives, PrimitivesLaws, EcdsaKey}
use setinstone.Crypto.RoundTrip.{IsKey}
use setinstone.Address.Keys.{of_ecdsa_key}
use setinstone.Message.{Message}
use setinstone.Message.Json.{Json, JsonLaws}
use setinstone.Event.Subscriptions.{get}
use setinstone.Event.Manager.{Event, Manager, PubSub, get_topic_name, new_message, loop_operation}
use setinstone.Event.Manager
use setinstone.Event.Delivery.{loop_operation-emit}
use setinstone.Event.Loop.{Round, IsNoise, event_loop, event_loop-noise, event_loop-one}
use setinstone.Resolver.Backend.{Backend}
use setinstone.Resolver.Network.{IpfsResolver}
use setinstone.Resolver.Network.Answer.{handle_event}
use setinstone.Resolver.Network.Live.{
  Bus, Given, Handle, callback, emit, emit_by, listen, live_env, manager_at, pointed,
}

module _ {J N B : Type 0} (p : Primitives) (j : Json J) (ps : PubSub N) (uuid : ℕ → Bytes)
    (store : Backend B) where
  emit-found :
      (h : ℕ) (name body : Bytes) (m : Manager (Unit {0})) (w w' : Bus N)
      → get_elem? w.managers h ≡ some m
      → emit p j ps uuid h name body w ≡ (ok tt, w')
      → Manager.emit p j ps w.entropy w.clock name body m w.network ≡ (ok tt, w'.network)
  unfolding emit
  emit-found h name body m w w' found e =
      let said : emit_by p j ps uuid (some m) name body w ≡ (ok tt, w') = sym (rw found refl) ∙ e in
      unfold emit_by in λ i. ((said i).0, (said i).1.network)

  listen-heard :
      (h : ℕ) (m : Manager (Unit {0})) (noise : List (Round Given)) (given : Given)
      (gives_up : Bool) (from text : Bytes) (ev : Event) (b b' : IpfsResolver (Bus N) ℕ Handle B)
      → get_elem? b.events.managers h ≡ some m
      → All (IsNoise p j m) noise
      → loop_operation p j (ok (from, text)) m ≡ ok ((tt, ev) ∷ [])
      → handle_event (live_env p j ps uuid store) given.now given.timestamp given.seed ev.body b
        ≡ (ok tt, b')
      → listen p j ps uuid store h
          (noise ++ record { arrival = ok (from, text); given = given; gives_up = gives_up } ∷ [])
          b
        ≡ (ok tt, b')
  unfolding listen manager_at pointed callback event_loop
  listen-heard h m noise given gives_up from text ev b b' found quiet heard handled =
      let round : Round Given = record {
        arrival = ok (from, text);
        given = given;
        gives_up = gives_up;
      } in
      let at : manager_at p j ps uuid store h b ≡ ok m = rw found refl in
      let heeds = callback p j ps uuid store in
      event_loop-noise p j (manager_at p j ps uuid store h) heeds m noise (round ∷ []) b at quiet
      ∙ event_loop-one p j (manager_at p j ps uuid store h) heeds m round tt ev [] b b' at heard
          handled

  -- x
  pub listen-emit :
      {is_text : Message → Bool} {members : Message → Assoc J} (laws : PrimitivesLaws p)
      (j_laws : JsonLaws j is_text members) (key : EcdsaKey) (h h' : ℕ) (name body : Bytes)
      (m m' : Manager (Unit {0})) (w w' : Bus N) (noise : List (Round Given)) (given : Given)
      (gives_up : Bool) (b b' : IpfsResolver (Bus N) ℕ Handle B)
      → IsKey p key
      → m.signer_addr.keys ≡ some (of_ecdsa_key key)
      → is_text (new_message p j w.clock name body m) ≡ true
      → get_elem? w.managers h ≡ some m
      → emit p j ps uuid h name body w ≡ (ok tt, w')
      → get_elem? b.events.managers h' ≡ some m'
      → get name m'.subscriptions ≡ tt ∷ []
      → m.id ≢ m'.id
      → All (IsNoise p j m') noise
      → handle_event (live_env p j ps uuid store) given.now given.timestamp given.seed body b
        ≡ (ok tt, b')
      → (text : Bytes) × (ps.publish (get_topic_name p j m) text w.network ≡ (ok tt, w'.network))
        × (listen p j ps uuid store h'
              (noise
                ++ record { arrival = ok (m.id, text); given = given; gives_up = gives_up } ∷ [])
              b
            ≡ (ok tt, b'))
  listen-emit laws j_laws key h h' name body m m' w w' noise given gives_up b b' is_key own utf8
        found said found' hears other quiet handled =
      let (text, published, heard) =
        loop_operation-emit p j laws j_laws ps w.entropy key w.clock name body m.id m m' w.network
          w'.network is_key own utf8 (emit-found h name body m w w' found said) other in
      (
        text,
        published,
        listen-heard h' m' noise given gives_up m.id text (record { name = name; body = body }) b b'
            found' quiet
            (heard ∙ ap (λ cs. ok (map (λ c. (c, record { name = name; body = body })) cs)) hears)
            handled,
      )
