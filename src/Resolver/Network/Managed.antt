-- ===== src/Resolver/Network/Managed.antt =====
-- resolver/ipfs_resolver.go: `Manage` and `Subscribe`, and the names under an address afterwards.
use setinstone.Prelude.{
  ℕ, zero, ◌≡◌, refl, sym, ap, ◌∙◌, subst, Bool, true, false, [], Option, none, some, List, Bytes,
  bytes_eq, bytes_eq_refl, if◌then◌else◌,
}
use setinstone.Prelude.Int.{pos}
use setinstone.Prelude.Action.{continue, run-bind, run-end, lift, ◌>>=◌}
use setinstone.Prelude.Outcome.{Outcome, ok, err, panic, no_private_key, unmanaged_address}
use setinstone.Address.{Address, KeyPair, has_keys}
use setinstone.Message.{Message}
use setinstone.Cache
use setinstone.Cache.{expiry, is_past, get-add_with_ttl}
use setinstone.Resolver.{get_query_name_request_from_name}
use setinstone.Resolver.Backend.{BackendLaws}
use setinstone.Resolver.Network.{
  Env, IpfsResolver, Resource, is_managed, keys_of_found, on_known, resource_for, subscribe_address,
  subscribe, manage, manage_with, add, on_backend,
}
use setinstone.Resolver.Network.Query.{Round, resolve, resolved}

module _ {J W H S B : Type 0} (e : Env J W H S B) where
  -- Resources do not expire, as in `new_ipfs_resolver`.
  abbrev pub IsSteady : IpfsResolver W H S B → Type 0
  IsSteady r = r.resource_cache.default_ttl ≡ pos zero

  -- What a subscription to an address that is not followed yet leaves.
  pub record Followed (addr : Address) (r r' : IpfsResolver W H S B) (res : Resource H S)
      : Type 0 where
    pub found : (later : ℕ) → Cache.get later addr.address r'.resource_cache ≡ some res
    pub own : res.addr ≡ addr
    pub same_backend : r'.backend ≡ r.backend

  pub get-added :
      (now later : ℕ) (addr : Bytes) (res : Resource H S) (r : IpfsResolver W H S B)
      → IsSteady r
      → Cache.get later addr (Cache.add now addr res r.resource_cache) ≡ some res
  unfolding Cache.add expiry is_past
  get-added now later addr res r steady =
      ap (λ t. Cache.get later addr (Cache.add_with_ttl now addr res t r.resource_cache)) steady
      ∙ get-add_with_ttl now later addr addr res (pos zero) r.resource_cache
      ∙ rw (bytes_eq_refl addr) refl

  subscribe_address-Followed :
      (now : ℕ) (addr : Address) (r r' : IpfsResolver W H S B) (res : Resource H S)
      → IsSteady r
      → Cache.get now addr.address r.resource_cache ≡ none
      → subscribe_address e now addr r ≡ (ok res, r')
      → Followed addr r r' res
  unfolding subscribe_address on_known resource_for
  subscribe_address-Followed now addr r r' res steady fresh h =
      on_built (e.manager.build r.signer_addr addr r.events).0
        (e.manager.build r.signer_addr addr r.events).1 (sym (rw fresh refl) ∙ h)
    where
      on_built :
          (o : Outcome H) (w : W)
          → continue o (resource_for e now addr) (record r { events = w }) ≡ (ok res, r')
          → Followed addr r r' res
      on_built (ok evm) w g =
          let (same, state) = run-end g in
          subst (λ x. Followed addr r x res) state
            (subst
              (λ x. Followed addr r (resource_for e now addr evm (record r { events = w })).1 x)
              same
              (record {
                found =
                    λ later. get-added now later addr.address _ (record r { events = w }) steady;
                own = refl;
                same_backend = refl;
              }))
      on_built (err c) w g = cc
      on_built panic w g = cc

  manage-Followed :
      (now : ℕ) (addr : Address) (r r' : IpfsResolver W H S B)
      → IsSteady r
      → Cache.get now addr.address r.resource_cache ≡ none
      → manage e now addr r ≡ (ok tt, r')
      → (res : Resource H S) × Followed addr r r' res
  unfolding manage manage_with
  manage-Followed now addr r r' steady fresh h = on_keys addr.keys h
    where
      on_test :
          (b : Bool)
          → (if b
                then lift (err no_private_key)
                else (subscribe_address e now addr >>= λ _. lift {A = Unit {0}} (ok tt)))
              r
            ≡ (ok tt, r')
          → (res : Resource H S) × Followed addr r r' res
      on_test true g = cc
      on_test false g =
          let (res, t, first, rest) =
            run-bind (subscribe_address e now addr) (λ _. lift {A = Unit {0}} (ok tt)) r g in
          let state : t ≡ r' = (run-end rest).1 in
          (
            res,
            subscribe_address-Followed now addr r r' res steady fresh
                (first ∙ ap (λ s. (ok res, s)) state),
          )

      on_keys :
          (o : Option KeyPair)
          → manage_with e o now addr r ≡ (ok tt, r')
          → (res : Resource H S) × Followed addr r r' res
      on_keys none g = cc
      on_keys (some k) g = on_test (bytes_eq k.private_key []) g

  is_managed-Followed :
      (later : ℕ) (rec : Message) (addr : Address) (r r' : IpfsResolver W H S B)
      (res : Resource H S)
      → rec.address ≡ addr.address
      → Followed addr r r' res
      → is_managed later rec r' ≡ has_keys addr
  unfolding is_managed keys_of_found
  is_managed-Followed later rec addr r r' res same f =
      ap (λ a. keys_of_found (Cache.get later a r'.resource_cache)) same
      ∙ ap keys_of_found (f.found later)
      ∙ ap has_keys f.own

  add-unmanaged :
      (now : ℕ) (name value : Bytes) (rec : Message) (r : IpfsResolver W H S B)
      → get_query_name_request_from_name e.primitives name ≡ ok rec
      → is_managed now rec r ≡ false
      → add e now name value r ≡ (err unmanaged_address, r)
  unfolding add ◌>>=◌
  add-unmanaged now name value rec r parsed other = rw (parsed, other) refl

  -- After a `Subscribe` to an address that is not followed yet, `Manage` of that address with a
  -- private key returns no error and changes nothing, and an `Add` under it is refused as
  -- unmanaged, when resources do not expire.
  pub manage-subscribe :
      (now later : ℕ) (addr : Address) (k : KeyPair) (name value : Bytes) (rec : Message)
      (res : Resource H S) (r r' : IpfsResolver W H S B)
      → IsSteady r
      → Cache.get now addr.address r.resource_cache ≡ none
      → addr.keys ≡ some k
      → bytes_eq k.private_key [] ≡ false
      → get_query_name_request_from_name e.primitives name ≡ ok rec
      → rec.address ≡ addr.address
      → subscribe e now addr.address r ≡ (ok res, r')
      → (manage e later addr r' ≡ (ok tt, r'))
        × (add e later name value r' ≡ (err unmanaged_address, r'))
  unfolding manage manage_with subscribe subscribe_address on_known has_keys ◌>>=◌
  manage-subscribe now later addr k name value rec res r r' steady fresh own secret parsed same h =
      let bare : Address = record { keys = none; address = addr.address } in
      let f : Followed bare r r' res =
        subscribe_address-Followed now bare r r' res steady fresh h in
      (
        rw (own, secret, f.found later) refl,
        add-unmanaged later name value rec r' parsed
            (is_managed-Followed later rec bare r r' res same f),
      )

  module _ {IsReady : B → Type 0} (laws : BackendLaws e.primitives e.store IsReady) where
    resolve-managed :
        (now : ℕ) (name : Bytes) (rec : Message) (rounds : List (Round W))
        (r : IpfsResolver W H S B)
        → get_query_name_request_from_name e.primitives name ≡ ok rec
        → is_managed now rec r ≡ true
        → resolve e now name rounds r ≡ (e.store.resolve now name r.backend, r)
    unfolding resolve resolved ◌>>=◌
    resolve-managed now name rec rounds r parsed own = rw (parsed, own) refl

    add-managed :
        (now : ℕ) (name value : Bytes) (rec : Message) (r : IpfsResolver W H S B)
        → get_query_name_request_from_name e.primitives name ≡ ok rec
        → is_managed now rec r ≡ true
        → add e now name value r ≡ on_backend e (e.store.add now name value) r
    unfolding add ◌>>=◌
    add-managed now name value rec r parsed own = rw (parsed, own) refl

    -- After `Manage` of an address with keys that is not followed yet and an `Add` under it, both
    -- without an error, the name resolves to the value at any later time, with a backend that keeps
    -- its values and resources that do not expire.
    pub resolve-add-manage :
        (now t later : ℕ) (addr : Address) (name value : Bytes) (rec : Message)
        (rounds : List (Round W)) (r r' r'' : IpfsResolver W H S B)
        → IsSteady r
        → IsReady r.backend
        → Cache.get now addr.address r.resource_cache ≡ none
        → has_keys addr ≡ true
        → get_query_name_request_from_name e.primitives name ≡ ok rec
        → rec.address ≡ addr.address
        → manage e now addr r ≡ (ok tt, r')
        → add e t name value r' ≡ (ok tt, r'')
        → resolve e later name rounds r'' ≡ (ok value, r'')
    unfolding on_backend is_managed keys_of_found
    resolve-add-manage now t later addr name value rec rounds r r' r'' steady ready fresh keys
          parsed same h g =
        let (res, f) = manage-Followed now addr r r' steady fresh h in
        let managed : (s : ℕ) → is_managed s rec r' ≡ true =
          λ s. is_managed-Followed s rec addr r r' res same f ∙ keys in
        let stored = sym (add-managed t name value rec r' parsed (managed t)) ∙ g in
        let state : record r' { backend = (e.store.add t name value r'.backend).1 } ≡ r'' =
          λ i. (stored i).1 in
        let done : e.store.add t name value r'.backend ≡ (ok tt, r''.backend) =
          λ i. ((stored i).0, (stored i).1.backend) in
        resolve-managed later name rec rounds r'' parsed
          (ap (is_managed later rec) (sym state) ∙ managed later)
        ∙ ap (λ o. (o, r''))
            (laws.resolve_added t later name value rec r'.backend r''.backend
              (subst IsReady (sym f.same_backend) ready) parsed done)
