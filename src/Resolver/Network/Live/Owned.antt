-- ===== src/Resolver/Network/Live/Owned.antt =====
-- resolver/ipfs_resolver.go over event/manager.go: the managers of the addresses that a node follows, from
-- step to step.
use setinstone.Prelude.{
  ℕ, ◌≡◌, ◌≢◌, refl, sym, ap, ◌∙◌, subst, [], ◌∷◌, ◌++◌, Option, none, some, Bytes, length,
  get_elem?, Bool, true, false, bytes_eq, bytes_eq_iff, Bool-cases, inl, inr, if◌then◌else◌,
}
use setinstone.Prelude.Action.{continue, lift}
use setinstone.Prelude.Assoc.{lookup, lookup-insert, lookup-erase}
use setinstone.Prelude.Outcome.{Outcome, ok, err, panic}
use setinstone.Primitives.{Primitives}
use setinstone.Address.{Address}
use setinstone.Message.Json.{Json}
use setinstone.Cache
use setinstone.Cache.{MemoryCache, CacheRecord}
use setinstone.Event.Manager.{Manager, PubSub, get_topic_name}
use setinstone.Event.Manager
use setinstone.Resolver.Backend.{Backend}
use setinstone.Resolver.Network.{
  IpfsResolver, Resource, subscribe_address, on_known, remove, dropped, resource_for,
}
use setinstone.Resolver.Network.Query.{
  Input, received, wakes, adds, manages, subscribes, removes, asks, turns, step,
}
use setinstone.Resolver.Network.Linked.{step-Preserves, TurnsKeep}
use setinstone.Resolver.Network.Live.{
  Bus, Handle, build, built, emit, emit_by, unsubscribe, unsubscribed, live_env, live_events,
}
use setinstone.Resolver.Network.Live.Attached.{
  get_elem?-last, resource_of, resource_for-last, new_manager, with_both, with_callback, new-heard,
}
use setinstone.Resolver.Network.Live.Owner.{
  IsOwner, IsOwned, owner_unique, moved-IsOwner, same-IsOwner, of_true, of_false, none-some,
  different, some-injective, get_elem?-append, get_elem?-set_other,
}

module _ {J N B : Type 0} (p : Primitives) (j : Json J) (ps : PubSub N) (uuid : ℕ → Bytes)
    (store : Backend B) where
  abbrev Node : Type 0
  Node = IpfsResolver (Bus N) ℕ Handle B

  unsubscribe-other :
      (s : Handle) (k : ℕ) (w : Bus N)
      → s.0 ≢ k
      → get_elem? (unsubscribe p j ps uuid s w).managers k ≡ get_elem? w.managers k
  unfolding unsubscribe unsubscribed
  unsubscribe-other (h, sub) k w d = on_found (get_elem? w.managers h)
    where
      on_found :
          (o : Option (Manager (Unit {0})))
          → get_elem? (unsubscribed p j ps uuid o (h, sub) w).managers k ≡ get_elem? w.managers k
      on_found none = refl
      on_found (some m) = get_elem?-set_other w.managers h k _ d

  removed-IsOwned :
      (now : ℕ) (addr : Bytes) (r : Node)
      → IsOwned r.resource_cache r.events.managers
      → (let r' = remove (live_env p j ps uuid store) now addr r in
          IsOwned r'.resource_cache r'.events.managers)
  unfolding remove dropped Cache.get Cache.live Cache.delete live_env live_events
  removed-IsOwned now addr r h = on_entry (lookup addr r.resource_cache.entries) refl
    where
      on_live :
          (kept : CacheRecord (Resource ℕ Handle)) (expired : Bool)
          → lookup addr r.resource_cache.entries ≡ some kept
          → (let r' =
                dropped
                  (live_env p j ps uuid store)
                  (if expired then none else some kept.value)
                  addr
                  r in
              IsOwned r'.resource_cache r'.events.managers)
      on_live kept true e = h
      on_live kept false e = λ k other found.
          let left = sym (lookup-erase addr k r.resource_cache.entries) ∙ found in
          elim (Bool-cases (bytes_eq addr k)) [
            | inl same ↦ absurd (none-some (of_true _ same left))
            | inr differs ↦
                let (m, owner) = h addr kept e in
                let (n, own) = h k other (of_false _ differs left) in
                let apart : kept.value.evm ≢ other.value.evm = λ same.
                  different
                    (owner_unique addr k kept.value other.value r.events.managers m n owner own
                      same)
                    differs in
                let request = kept.value.sub_name_request_event in
                let w = unsubscribe p j ps uuid request r.events in
                (
                  n,
                  moved-IsOwner k other.value r.events.managers _ n own (
                      unsubscribe-other kept.value.sub_name_response_event other.value.evm w
                        (λ same. apart (sym owner.response_at ∙ same))
                      ∙ unsubscribe-other request other.value.evm r.events
                          (λ same. apart (sym owner.request_at ∙ same))
                      ∙ own.manager),
                )
          ]

      on_entry :
          (o : Option (CacheRecord (Resource ℕ Handle)))
          → lookup addr r.resource_cache.entries ≡ o
          → (let r' = dropped (live_env p j ps uuid store) (Cache.live now o) addr r in
              IsOwned r'.resource_cache r'.events.managers)
      on_entry none e = h
      on_entry (some kept) e = on_live kept (Cache.is_expired kept now) e

  managers-emit :
      (h : ℕ) (name body : Bytes) (w : Bus N)
      → (emit p j ps uuid h name body w).1.managers ≡ w.managers
  unfolding emit emit_by
  managers-emit h name body w = on_found (get_elem? w.managers h)
    where
      on_found :
          (o : Option (Manager (Unit {0})))
          → (emit_by p j ps uuid o name body w).1.managers ≡ w.managers
      on_found none = refl
      on_found (some m) = refl

  abbrev made : Address → Node → Manager (Unit {0})
  made = new_manager p j ps uuid store

  new-IsOwner :
      (addr : Address) (w : Bus N) (r : Node)
      → IsOwner addr.address
          (resource_of p j ps uuid store (length w.managers) w.issued addr (made addr r))
          (w.managers ++ with_both p j ps uuid store w.issued (made addr r) ∷ [])
          (with_both p j ps uuid store w.issued (made addr r))
  unfolding resource_of with_both with_callback new_manager Manager.on
  new-IsOwner addr w r =
      let (requests, responses) = new-heard p j ps uuid store w.issued addr r in
      record {
        own = refl;
        manager = get_elem?-last w.managers _;
        managed = refl;
        requests = requests;
        responses = responses;
        request_at = refl;
        response_at = refl;
      }

  -- the entries with a new one
  added-IsOwned :
      (now : ℕ) (addr : Address) (w : Bus N) (r : Node)
      → IsOwned r.resource_cache w.managers
      → IsOwned
          (Cache.add now addr.address
            (resource_of p j ps uuid store (length w.managers) w.issued addr (made addr r))
            r.resource_cache)
          (w.managers ++ with_both p j ps uuid store w.issued (made addr r) ∷ [])
  unfolding Cache.add Cache.add_with_ttl
  added-IsOwned now addr w r h k kept found =
      let left = sym (lookup-insert addr.address k _ r.resource_cache.entries) ∙ found in
      elim (Bool-cases (bytes_eq addr.address k)) [
        | inl same ↦
            let value =
              ap (λ (x : CacheRecord (Resource ℕ Handle)). x.value)
                (some-injective (of_true _ same left)) in
            (
              with_both p j ps uuid store w.issued (made addr r),
              same-IsOwner _ _ ((bytes_eq_iff addr.address k).0 same) value (new-IsOwner addr w r),
            )
        | inr differs ↦
            let (m, owner) = h k kept (of_false _ differs left) in
            (
              m,
              moved-IsOwner k kept.value w.managers _ m owner
                  (get_elem?-append w.managers _ kept.value.evm m owner.manager),
            )
      ]

  subscribed-IsOwned :
      (now : ℕ) (addr : Address) (r : Node)
      → IsOwned r.resource_cache r.events.managers
      → (let r' = (subscribe_address (live_env p j ps uuid store) now addr r).1 in
          IsOwned r'.resource_cache r'.events.managers)
  unfolding subscribe_address on_known live_env live_events build built Manager.build
      Manager.new_manager new_manager
  subscribed-IsOwned now addr r h = on_cached (Cache.get now addr.address r.resource_cache)
    where
      on_subscribed :
          (o : Outcome (Unit {0})) (n : N)
          → (let (b, w) =
                built p j ps uuid (continue o (λ _. lift (ok (made addr r))) n) r.events in
              let r' =
                (continue b
                  (resource_for (live_env p j ps uuid store) now addr)
                  (record r { events = w })).1 in
              IsOwned r'.resource_cache r'.events.managers)
      on_subscribed (ok u) n =
          let w : Bus N = record (r.events) { network = n } in
          subst
            (λ (x : Outcome (Resource ℕ Handle) × Node).
              IsOwned x.1.resource_cache x.1.events.managers)
            (sym (resource_for-last p j ps uuid store now addr w.managers (made addr r) w r))
            (added-IsOwned now addr w r h)
      on_subscribed (err c) n = h
      on_subscribed panic n = h

      on_cached :
          (o : Option (Resource ℕ Handle))
          → (let r' = (on_known (live_env p j ps uuid store) o now addr r).1 in
              IsOwned r'.resource_cache r'.events.managers)
      on_cached none =
          on_subscribed (ps.subscribe (get_topic_name p j (made addr r)) r.events.network).0
            (ps.subscribe (get_topic_name p j (made addr r)) r.events.network).1
      on_cached (some res) = h

  -- The rest of the program does not touch the managers.
  abbrev pub LeavesManagers : Input (Bus N) → Node → Type 0
  LeavesManagers (turns w) r = w.managers ≡ r.events.managers
  LeavesManagers _ r = Unit {0}

  -- Every step keeps that each address that is followed has its manager.
  pub step-IsOwned :
      (i : Input (Bus N)) (r : Node)
      → LeavesManagers i r
      → IsOwned r.resource_cache r.events.managers
      → (let r' = (step (live_env p j ps uuid store) i r).1 in
          IsOwned r'.resource_cache r'.events.managers)
  unfolding live_env live_events
  step-IsOwned i r left h =
      step-Preserves (live_env p j ps uuid store) (λ c w. IsOwned c w.managers)
        (record {
          by_subscribe = subscribed-IsOwned;
          by_emit = λ h name body c w. subst (IsOwned c) (sym (managers-emit h name body w));
          by_remove = removed-IsOwned;
        })
        i r (turned-TurnsKeep i left) h
    where
      turned-TurnsKeep :
          (i : Input (Bus N))
          → LeavesManagers i r
          → TurnsKeep (live_env p j ps uuid store) (λ c w. IsOwned c w.managers) i r
      turned-TurnsKeep (turns w) left = λ h. subst (IsOwned r.resource_cache) (sym left) h
      turned-TurnsKeep (received now timestamp seed body) left = tt
      turned-TurnsKeep (wakes now n) left = tt
      turned-TurnsKeep (adds now name value) left = tt
      turned-TurnsKeep (manages now addr) left = tt
      turned-TurnsKeep (subscribes now addr) left = tt
      turned-TurnsKeep (removes now addr) left = tt
      turned-TurnsKeep (asks now rec) left = tt
