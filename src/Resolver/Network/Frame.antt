-- ===== src/Resolver/Network/Frame.antt =====
-- resolver/ipfs_resolver.go: the methods that neither read nor write the cache of resolutions.
use setinstone.Prelude.{
  ℕ, ◌≡◌, refl, ap, ◌∙◌, Bool, [], if◌then◌else◌, true, false, Option, none, some, Bytes, bytes_eq,
}
use setinstone.Prelude.Assoc.{lookup}
use setinstone.Prelude.Action.{Keeps, Keeps-bind, Keeps-continue, lift, reads, ◌>>=◌}
use setinstone.Prelude.Outcome.{Outcome, ok, err, panic, no_private_key, unmanaged_address}
use setinstone.Address.{Address, KeyPair}
use setinstone.Message.{Message, extract_query, query_name_request}
use setinstone.Cache
use setinstone.Cache.{MemoryCache}
use setinstone.Resolver.Network.{
  Env, IpfsResolver, Resource, on_known, resource_for, subscribe_address, subscribe, manage_with,
  add_pending_query, remove_pending_query, manage, dropped, remove, on_backend, add,
}
use setinstone.Resolver.Network.Answer.{
  ended, send_resolution, can_send, can_send_resolution, sent, woken, answer, handle_query,
}
use setinstone.Resolver.Network.Query.{ask, published}

module _ {J W H S B : Type 0} (e : Env J W H S B) where
  abbrev pub resolutions : IpfsResolver W H S B → MemoryCache Message
  resolutions r = r.resolution_cache

  pub ended-state : {A : Type 0} (x : Outcome A × IpfsResolver W H S B) → (ended x).1 ≡ x.1
  unfolding ended
  ended-state (ok a, s) = refl
  ended-state (err c, s) = refl
  ended-state (panic, s) = refl

  subscribe_address-Keeps :
      (now : ℕ) (addr : Address) → Keeps resolutions (subscribe_address e now addr)
  unfolding subscribe_address on_known resource_for
  subscribe_address-Keeps now addr r = on_cached (Cache.get now addr.address r.resource_cache)
    where
      on_cached :
          (o : Option (Resource H S)) → resolutions (on_known e o now addr r).1 ≡ resolutions r
      on_cached (some res) = refl
      on_cached none =
          let (built, w) = e.manager.build r.signer_addr addr r.events in
          Keeps-continue resolutions built (resource_for e now addr) (λ a s. refl)
            (record r { events = w })

  pub subscribe-Keeps : (now : ℕ) (addr : Bytes) → Keeps resolutions (subscribe e now addr)
  unfolding subscribe
  subscribe-Keeps now addr = subscribe_address-Keeps now _

  pub manage-Keeps : (now : ℕ) (addr : Address) → Keeps resolutions (manage e now addr)
  unfolding manage manage_with
  manage-Keeps now addr = on_keys addr.keys
    where
      on_keys : (o : Option KeyPair) → Keeps resolutions (manage_with e o now addr)
      on_keys none = λ s. refl
      on_keys (some k) = on_test (bytes_eq k.private_key [])
        where
          on_test :
              (b : Bool)
              → Keeps resolutions (
                  if b
                  then lift (err no_private_key)
                  else (subscribe_address e now addr >>= λ _. lift {A = Unit {0}} (ok tt)))
          on_test true = λ s. refl
          on_test false =
              Keeps-bind resolutions (subscribe_address e now addr) _
                (subscribe_address-Keeps now addr) (λ a s. refl)

  pub remove-Keeps :
      (now : ℕ) (addr : Bytes) (r : IpfsResolver W H S B)
      → resolutions (remove e now addr r) ≡ resolutions r
  unfolding remove dropped
  remove-Keeps now addr r = on_cached (Cache.get now addr r.resource_cache)
    where
      on_cached : (o : Option (Resource H S)) → resolutions (dropped e o addr r) ≡ resolutions r
      on_cached (some res) = refl
      on_cached none = refl

  pub add-Keeps : (now : ℕ) (name value : Bytes) → Keeps resolutions (add e now name value)
  unfolding add on_backend
  add-Keeps now name value =
      Keeps-bind resolutions (lift _) _ (λ s. refl)
        λ rec. Keeps-bind resolutions (reads _) _ (λ s. refl) on_managed
    where
      on_managed :
          (managed : Bool)
          → Keeps resolutions (
              if managed
              then on_backend e (e.store.add now name value)
              else lift (err unmanaged_address))
      on_managed true s = refl
      on_managed false s = refl

  pub ask-Keeps : (now : ℕ) (rec : Message) → Keeps resolutions (ask e now rec)
  unfolding ask published
  ask-Keeps now rec =
      Keeps-bind resolutions (lift _) _ (λ s. refl)
        λ js.
          Keeps-bind resolutions (subscribe e now rec.address) _ (subscribe-Keeps now rec.address)
            λ res s.
              let (o, w) = e.manager.emit res.evm query_name_request js s.events in
              on_published o (record s { events = w })
    where
      on_published : (o : Outcome (Unit {0})) → Keeps resolutions (published e o)
      on_published (ok _) s = refl
      on_published (err c) s = refl
      on_published panic s = refl

  can-Keeps : (msg : Message) → Keeps resolutions (can_send_resolution e msg)
  unfolding can_send_resolution can_send remove_pending_query
  can-Keeps msg s = on_found (lookup (extract_query msg).1 s.pending)
    where
      on_found : (o : Option Bool) → resolutions (can_send e o msg s).1 ≡ resolutions s
      on_found none = refl
      on_found (some _) = refl

  sent-Keeps :
      (msg : Message) (js : Bytes) (now : ℕ) (can : Bool)
      → Keeps resolutions (sent e msg js now can)
  unfolding sent
  sent-Keeps msg js now false = λ s. refl
  sent-Keeps msg js now true =
      Keeps-bind resolutions (subscribe e now msg.address) _ (subscribe-Keeps now msg.address)
        (λ res s. refl)

  pub woken-Keeps :
      (now : ℕ) (msg : Message) (r : IpfsResolver W H S B)
      → resolutions (woken e now msg r).1 ≡ resolutions r
  unfolding woken
  woken-Keeps now msg r =
      ap resolutions (ended-state _)
      ∙ Keeps-bind resolutions (lift _) _ (λ s. refl)
          (λ js.
            Keeps-bind resolutions (can_send_resolution e msg) _ (can-Keeps msg)
              (λ can. sent-Keeps msg js now can))
          r

  answer-Keeps :
      (now : ℕ) (timestamp : Bytes) (seed : ℕ) (msg : Message)
      → Keeps resolutions (answer e now timestamp seed msg)
  unfolding answer send_resolution
  answer-Keeps now timestamp seed msg =
      Keeps-bind resolutions (reads _) _ (λ s. refl)
        λ resolution.
          Keeps-bind resolutions (subscribe e now msg.address) _ (subscribe-Keeps now msg.address)
            λ resource.
              Keeps-bind resolutions (lift _) _ (λ s. refl)
                λ u.
                  Keeps-bind resolutions (lift _) _ (λ s. refl)
                    λ k.
                      Keeps-bind resolutions (lift _) _ (λ s. refl)
                        λ rec. Keeps-bind resolutions (lift _) _ (λ s. refl) (λ v s. refl)

  pub handle_query-Keeps :
      (now : ℕ) (timestamp : Bytes) (seed : ℕ) (msg : Message) (r : IpfsResolver W H S B)
      → resolutions (handle_query e now timestamp seed msg r).1 ≡ resolutions r
  unfolding handle_query add_pending_query
  handle_query-Keeps now timestamp seed msg r =
      ap resolutions (ended-state _)
      ∙ answer-Keeps now timestamp seed msg (add_pending_query e msg r)
