-- ===== src/Resolver/Network/Linked.antt =====
-- resolver/ipfs_resolver.go: what `subscribe`, `Remove` and the emissions keep of the followed addresses
-- and the events is kept by every step.
use setinstone.Prelude.{
  ℕ, Bool, true, false, [], if◌then◌else◌, Option, none, some, Bytes, bytes_eq, get_elem?,
  Bool-cases, inl, inr,
}
use setinstone.Prelude.Assoc.{lookup}
use setinstone.Prelude.Action.{Preserves, Preserves-bind, lift, reads, ◌>>=◌}
use setinstone.Prelude.Outcome.{Outcome, ok, err, panic, no_private_key, unmanaged_address}
use setinstone.Address.{Address, KeyPair}
use setinstone.Message.{
  Message, extract_query, verify_signature, query_name_request, query_name_response,
}
use setinstone.Message.Json.{from_json, empty, query_type}
use setinstone.Cache
use setinstone.Cache.{MemoryCache}
use setinstone.Resolver.Network.{
  Env, IpfsResolver, Resource, subscribe_address, subscribe, manage_with, manage, remove,
  on_backend, add, add_pending_query, put_in_cache, remove_pending_query,
}
use setinstone.Resolver.Network.Answer.{
  ended, send_resolution, can_send, can_send_resolution, sent, woken, answer, handle_query,
  dispatch, handle_event, handle_resolution, cached, replaces, judged, taken,
}
use setinstone.Resolver.Network.Query.{
  Input, received, wakes, adds, manages, subscribes, removes, asks, turns, step, ask, published,
  woken_at, without_position,
}

-- A predicate of the followed addresses and the events.
module _ {J W H S B : Type 0} (e : Env J W H S B)
    (Q : MemoryCache (Resource H S) → W → Type 0) where
  abbrev pub OfResolver : IpfsResolver W H S B → Type 0
  OfResolver r = Q r.resource_cache r.events

  -- What is asked of the three operations that change them.
  pub record IsKept : Type 0 where
    pub by_subscribe :
        (now : ℕ) (addr : Address) → Preserves OfResolver (subscribe_address e now addr)
    pub by_emit :
        (h : H) (name body : Bytes) (c : MemoryCache (Resource H S)) (w : W)
        → Q c w
        → Q c (e.manager.emit h name body w).1
    pub by_remove :
        (now : ℕ) (addr : Bytes) (r : IpfsResolver W H S B)
        → OfResolver r
        → OfResolver (remove e now addr r)

  -- What the rest of the program does to the events.
  abbrev pub TurnsKeep : Input W → IpfsResolver W H S B → Type 0
  TurnsKeep (turns w) r = OfResolver r → Q r.resource_cache w
  TurnsKeep _ r = Unit {0}

  module _ (kept : IsKept) where
    ended-Preserves :
        {A : Type 0} (x : Outcome A × IpfsResolver W H S B)
        → OfResolver x.1
        → OfResolver (ended x).1
    unfolding ended
    ended-Preserves (ok a, s) h = h
    ended-Preserves (err c, s) h = h
    ended-Preserves (panic, s) h = h

    subscribe-Preserves : (now : ℕ) (addr : Bytes) → Preserves OfResolver (subscribe e now addr)
    unfolding subscribe
    subscribe-Preserves now addr = kept.by_subscribe now _

    manage-Preserves : (now : ℕ) (addr : Address) → Preserves OfResolver (manage e now addr)
    unfolding manage manage_with
    manage-Preserves now addr = on_keys addr.keys
      where
        on_keys : (o : Option KeyPair) → Preserves OfResolver (manage_with e o now addr)
        on_keys none = λ s h. h
        on_keys (some k) = on_test (bytes_eq k.private_key [])
          where
            on_test :
                (b : Bool)
                → Preserves OfResolver (
                    if b
                    then lift (err no_private_key)
                    else (subscribe_address e now addr >>= λ _. lift {A = Unit {0}} (ok tt)))
            on_test true = λ s h. h
            on_test false =
                Preserves-bind OfResolver (subscribe_address e now addr) _
                  (kept.by_subscribe now addr) (λ a s h. h)

    add-Preserves : (now : ℕ) (name value : Bytes) → Preserves OfResolver (add e now name value)
    unfolding add on_backend
    add-Preserves now name value =
        Preserves-bind OfResolver (lift _) _ (λ s h. h)
          λ rec. Preserves-bind OfResolver (reads _) _ (λ s h. h) on_managed
      where
        on_managed :
            (managed : Bool)
            → Preserves OfResolver (
                if managed
                then on_backend e (e.store.add now name value)
                else lift (err unmanaged_address))
        on_managed true s h = h
        on_managed false s h = h

    ask-Preserves : (now : ℕ) (rec : Message) → Preserves OfResolver (ask e now rec)
    unfolding ask published
    ask-Preserves now rec =
        Preserves-bind OfResolver (lift _) _ (λ s h. h)
          λ js.
            Preserves-bind OfResolver (subscribe e now rec.address) _
              (subscribe-Preserves now rec.address)
              λ res s h.
                let (o, w) = e.manager.emit res.evm query_name_request js s.events in
                on_published o (record s { events = w })
                  (kept.by_emit res.evm query_name_request js s.resource_cache s.events h)
      where
        on_published : (o : Outcome (Unit {0})) → Preserves OfResolver (published e o)
        on_published (ok _) s h = h
        on_published (err c) s h = h
        on_published panic s h = h

    can-Preserves : (msg : Message) → Preserves OfResolver (can_send_resolution e msg)
    unfolding can_send_resolution can_send remove_pending_query
    can-Preserves msg s h = on_found (lookup (extract_query msg).1 s.pending)
      where
        on_found : (o : Option Bool) → OfResolver (can_send e o msg s).1
        on_found none = h
        on_found (some _) = h

    sent-Preserves :
        (msg : Message) (js : Bytes) (now : ℕ) (can : Bool)
        → Preserves OfResolver (sent e msg js now can)
    unfolding sent
    sent-Preserves msg js now false = λ s h. h
    sent-Preserves msg js now true =
        Preserves-bind OfResolver (subscribe e now msg.address) _
          (subscribe-Preserves now msg.address)
          (λ res s h. kept.by_emit res.evm query_name_response js s.resource_cache s.events h)

    woken-Preserves :
        (now : ℕ) (msg : Message) (r : IpfsResolver W H S B)
        → OfResolver r
        → OfResolver (woken e now msg r).1
    unfolding woken
    woken-Preserves now msg r h = ended-Preserves _ (
        Preserves-bind OfResolver (lift _) _ (λ s g. g)
          (λ js.
            Preserves-bind OfResolver (can_send_resolution e msg) _ (can-Preserves msg)
              (λ can. sent-Preserves msg js now can))
          r h)

    answer-Preserves :
        (now : ℕ) (timestamp : Bytes) (seed : ℕ) (msg : Message)
        → Preserves OfResolver (answer e now timestamp seed msg)
    unfolding answer send_resolution
    answer-Preserves now timestamp seed msg =
        Preserves-bind OfResolver (reads _) _ (λ s h. h)
          λ resolution.
            Preserves-bind OfResolver (subscribe e now msg.address) _
              (subscribe-Preserves now msg.address)
              λ resource.
                Preserves-bind OfResolver (lift _) _ (λ s h. h)
                  λ u.
                    Preserves-bind OfResolver (lift _) _ (λ s h. h)
                      λ k.
                        Preserves-bind OfResolver (lift _) _ (λ s h. h)
                          λ rec. Preserves-bind OfResolver (lift _) _ (λ s h. h) (λ v s h. h)

    handle_query-Preserves :
        (now : ℕ) (timestamp : Bytes) (seed : ℕ) (msg : Message) (r : IpfsResolver W H S B)
        → OfResolver r
        → OfResolver (handle_query e now timestamp seed msg r).1
    unfolding handle_query add_pending_query
    handle_query-Preserves now timestamp seed msg r h =
        ended-Preserves _ (answer-Preserves now timestamp seed msg (add_pending_query e msg r) h)

    handle_resolution-Preserves :
        (now : ℕ) (msg : Message) (r : IpfsResolver W H S B)
        → OfResolver r
        → OfResolver (handle_resolution e now msg r).1
    unfolding handle_resolution judged remove_pending_query cached put_in_cache
    handle_resolution-Preserves now msg r h = on_verified (verify_signature e.primitives msg)
      where
        on_test : (b : Bool) → OfResolver (if b then put_in_cache now msg r else r)
        on_test true = h
        on_test false = h

        on_verified : (o : Outcome (Unit {0})) → OfResolver (judged e now msg o r).1
        on_verified (ok tt) =
            on_test (replaces e (Cache.get now (extract_query msg).1 r.resolution_cache) msg)
        on_verified (err c) = h
        on_verified panic = h

    handle_event-Preserves :
        (now : ℕ) (timestamp : Bytes) (seed : ℕ) (body : Bytes) (r : IpfsResolver W H S B)
        → OfResolver r
        → OfResolver (handle_event e now timestamp seed body r).1
    unfolding handle_event taken dispatch
    handle_event-Preserves now timestamp seed body r h =
        on_read (from_json e.json empty body (some query_type))
      where
        on_type : (rec : Message) → OfResolver (dispatch e now timestamp seed rec r).1
        on_type rec = elim (Bool-cases (bytes_eq rec.message_type query_name_request)) [
          | inl t ↦ rw t (handle_query-Preserves now timestamp seed rec r h)
          | inr f ↦ elim (Bool-cases (bytes_eq rec.message_type query_name_response)) [
            | inl t ↦ rw (f, t) (handle_resolution-Preserves now rec r h)
            | inr g ↦ rw (f, g) h
          ]
        ]

        on_read : (o : Outcome Message) → OfResolver (taken e now timestamp seed o r).1
        on_read (ok rec) = on_type rec
        on_read (err c) = h
        on_read panic = h

    pub step-Preserves :
        (i : Input W) (r : IpfsResolver W H S B)
        → TurnsKeep i r
        → OfResolver r
        → OfResolver (step e i r).1
    unfolding step woken_at
    step-Preserves (received now timestamp seed body) r t h =
        handle_event-Preserves now timestamp seed body r h
    step-Preserves (wakes now n) r t h = on_found (get_elem? r.sending n)
      where
        on_found : (o : Option Message) → OfResolver (woken_at e now n o r).1
        on_found none = h
        on_found (some msg) =
            woken-Preserves now msg (record r { sending = without_position n r.sending }) h
    step-Preserves (adds now name value) r t h =
        ended-Preserves _ (add-Preserves now name value r h)
    step-Preserves (manages now addr) r t h = ended-Preserves _ (manage-Preserves now addr r h)
    step-Preserves (subscribes now addr) r t h =
        ended-Preserves _ (subscribe-Preserves now addr r h)
    step-Preserves (removes now addr) r t h = kept.by_remove now addr r h
    step-Preserves (asks now rec) r t h = ended-Preserves _ (ask-Preserves now rec r h)
    step-Preserves (turns w) r t h = t h
