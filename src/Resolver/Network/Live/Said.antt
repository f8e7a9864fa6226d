-- ===== src/Resolver/Network/Live/Said.antt =====
-- resolver/ipfs_resolver.go over event/manager.go: what a query and the goroutine of an answer emit.
use setinstone.Prelude.{ℕ, ◌≡◌, refl, sym, ◌∙◌, subst, true, some, Bytes, get_elem?}
use setinstone.Prelude.Assoc.{lookup}
use setinstone.Prelude.Action.{lift, ◌>>=◌}
use setinstone.Prelude.Outcome.{Outcome, ok, err, panic}
use setinstone.Primitives.{Primitives}
use setinstone.Message.{Message, extract_query, query_name_request, query_name_response}
use setinstone.Message.Json.{Json, to_json}
use setinstone.Cache
use setinstone.Event.Manager.{Manager, PubSub, get_topic_name, new_message}
use setinstone.Event.Manager
use setinstone.Resolver.Backend.{Backend}
use setinstone.Resolver.Network.{
  IpfsResolver, Resource, remove_pending_query, subscribe, subscribe_address, on_known,
}
use setinstone.Resolver.Network.Answer.{woken, ended, sent, can_send, can_send_resolution}
use setinstone.Resolver.Network.Query.{ask, published}
use setinstone.Resolver.Network.Live.{Bus, Handle, emit, emit_by, live_env, live_events}

module _ {J N B : Type 0} (p : Primitives) (j : Json J) (ps : PubSub N) (uuid : ℕ → Bytes)
    (store : Backend B) where
  -- An emission changes the network alone.
  pub emit-network :
      (h : ℕ) (name body : Bytes) (m : Manager (Unit {0})) (w w' : Bus N)
      → get_elem? w.managers h ≡ some m
      → emit p j ps uuid h name body w ≡ (ok tt, w')
      → w' ≡ record w { network = w'.network }
  unfolding emit
  emit-network h name body m w w' found e =
      let said : emit_by p j ps uuid (some m) name body w ≡ (ok tt, w') = sym (rw found refl) ∙ e in
      let q : record w { network = (Manager.emit p j ps w.entropy w.clock name body m w.network).1 }
          ≡ w' =
        unfold emit_by in λ i. (said i).1 in
      subst (λ x. x ≡ record w { network = x.network }) q refl

  pub ask-said :
      (now : ℕ) (rec : Message) (res : Resource ℕ Handle) (a a' : IpfsResolver (Bus N) ℕ Handle B)
      → Cache.get now rec.address a.resource_cache ≡ some res
      → ask (live_env p j ps uuid store) now rec a ≡ (ok true, a')
      → (js : Bytes) × (to_json j rec ≡ ok js)
        × (emit p j ps uuid res.evm query_name_request js a.events ≡ (ok tt, a'.events))
        × (a' ≡ record a { events = a'.events })
  unfolding ask subscribe subscribe_address on_known live_env live_events published ◌>>=◌
  ask-said now rec res a a' followed h = on_text (to_json j rec) refl h
    where
      on_emitted :
          (js : Bytes) (o : Outcome (Unit {0})) (w : Bus N)
          → to_json j rec ≡ ok js
          → emit p j ps uuid res.evm query_name_request js a.events ≡ (o, w)
          → published (live_env p j ps uuid store) o (record a { events = w }) ≡ (ok true, a')
          → (js : Bytes) × (to_json j rec ≡ ok js)
            × (emit p j ps uuid res.evm query_name_request js a.events ≡ (ok tt, a'.events))
            × (a' ≡ record a { events = a'.events })
      on_emitted js (ok u) w e said g =
          let q : record a { events = w } ≡ a' = λ i. (g i).1 in
          (
            js,
            e,
            said ∙ λ i. (ok tt, (q i).events),
            subst (λ x. x ≡ record a { events = x.events }) q refl,
          )
      on_emitted js (err c) w e said g = cc
      on_emitted js panic w e said g = cc

      on_text :
          (o : Outcome Bytes)
          → to_json j rec ≡ o
          → (lift o >>= λ js. subscribe (live_env p j ps uuid store) now rec.address >>= λ res r.
                let (o, w) = emit p j ps uuid res.evm query_name_request js r.events in
                published (live_env p j ps uuid store) o (record r { events = w }))
              a
            ≡ (ok true, a')
          → (js : Bytes) × (to_json j rec ≡ ok js)
            × (emit p j ps uuid res.evm query_name_request js a.events ≡ (ok tt, a'.events))
            × (a' ≡ record a { events = a'.events })
      on_text (ok js) e g =
          let said = emit p j ps uuid res.evm query_name_request js a.events in
          on_emitted js said.0 said.1 e refl (sym (rw followed refl) ∙ g)
      on_text (err c) e g = cc
      on_text panic e g = cc

  -- The sleep of an answer that is still pending ends.
  pub woken-said :
      (now : ℕ) (msg : Message) (js : Bytes) (res : Resource ℕ Handle)
      (b : IpfsResolver (Bus N) ℕ Handle B) (w : Bus N)
      → to_json j msg ≡ ok js
      → lookup (extract_query msg).1 b.pending ≡ some true
      → Cache.get now msg.address b.resource_cache ≡ some res
      → emit p j ps uuid res.evm query_name_response js b.events ≡ (ok tt, w)
      → woken (live_env p j ps uuid store) now msg b
        ≡ (ok tt, record (remove_pending_query msg b) { events = w })
  unfolding woken subscribe subscribe_address on_known live_env live_events ended sent can_send
      can_send_resolution remove_pending_query ◌>>=◌
  woken-said now msg js res b w written pending followed said =
      rw (written, pending, followed, said) refl
