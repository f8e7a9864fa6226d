-- ===== src/Resolver/Network/Live/Attached.antt =====
-- resolver/ipfs_resolver.go over event/manager.go: what `subscribe` leaves in the managers.
use setinstone.Prelude.{
  ℕ, suc, ◌≡◌, refl, sym, ap, ◌∙◌, subst, [], ◌∷◌, ◌++◌, none, some, List, Bytes, length, get_elem?,
  set, bytes_eq,
}
use setinstone.Prelude.Action.{continue, lift, run-end}
use setinstone.Prelude.Outcome.{Outcome, ok, err, panic}
use setinstone.Primitives.{Primitives}
use setinstone.Address.{Address}
use setinstone.Message.{query_name_request, query_name_response}
use setinstone.Message.Json.{Json}
use setinstone.Prelude.Assoc.{lookup, insert}
use setinstone.Cache
use setinstone.Event.Subscriptions.{Subscription, get, subscribe, get_or_create, new_subscriptions}
use setinstone.Event.Manager.{Manager, PubSub, get_topic_name}
use setinstone.Event.Manager
use setinstone.Resolver.Backend.{Backend}
use setinstone.Resolver.Network.{IpfsResolver, Resource, subscribe_address, on_known, resource_for}
use setinstone.Resolver.Network.Managed.{IsSteady, get-added}
use setinstone.Resolver.Network.Live.{
  Bus, Handle, on, on_manager, build, built, live_env, live_events,
}

module _ {A : Type 0} where
  pub get_elem?-last : (xs : List A) (x : A) → get_elem? (xs ++ x ∷ []) (length xs) ≡ some x
  get_elem?-last [] x = refl
  get_elem?-last (y ∷ xs) x = get_elem?-last xs x

  set-last : (xs : List A) (x y : A) → set (xs ++ x ∷ []) (length xs) y ≡ xs ++ y ∷ []
  set-last [] x y = refl
  set-last (z ∷ xs) x y = ap (λ l. z ∷ l) (set-last xs x y)

module _ {J N B : Type 0} (p : Primitives) (j : Json J) (ps : PubSub N) (uuid : ℕ → Bytes)
    (store : Backend B) where
  -- A node that follows an address: its resource has a manager for the address, signs with the node's
  -- key, and has the callback once for each of the two events.
  pub record IsStation (addr : Address) (r : IpfsResolver (Bus N) ℕ Handle B)
      (res : Resource ℕ Handle) (m : Manager (Unit {0})) : Type 0 where
    pub followed : (later : ℕ) → Cache.get later addr.address r.resource_cache ≡ some res
    pub own : res.addr ≡ addr
    pub manager : get_elem? r.events.managers res.evm ≡ some m
    pub managed : m.managed_addr ≡ addr
    pub signer : m.signer_addr ≡ r.signer_addr
    pub node : m.id ≡ r.events.factory.id
    pub space : m.name_space ≡ r.events.factory.name_space
    pub requests : get query_name_request m.subscriptions ≡ tt ∷ []
    pub responses : get query_name_response m.subscriptions ≡ tt ∷ []

  -- a manager behind one subscription, and behind those of a resource
  unfoldable pub with_callback : ℕ → Bytes → Manager (Unit {0}) → Subscription × Manager (Unit {0})
  with_callback n event_name m = Manager.on p j (uuid n) event_name tt m

  unfoldable pub with_both : ℕ → Manager (Unit {0}) → Manager (Unit {0})
  with_both n m =
      (with_callback (suc n) query_name_request (with_callback n query_name_response m).1).1

  on-last :
      (ms : List (Manager (Unit {0}))) (m : Manager (Unit {0})) (event_name : Bytes) (w : Bus N)
      → on p j ps uuid (length ms) event_name (record w { managers = ms ++ m ∷ [] }) ≡ (
        (length ms, (with_callback w.issued event_name m).0),
        record w {
          managers = ms ++ (with_callback w.issued event_name m).1 ∷ [];
          issued = suc w.issued;
        },
      )
  unfolding on on_manager with_callback
  on-last ms m event_name w =
      rw (get_elem?-last ms m, set-last ms m (Manager.on p j (uuid w.issued) event_name tt m).1)

  unfoldable pub resource_of : ℕ → ℕ → Address → Manager (Unit {0}) → Resource ℕ Handle
  resource_of h n addr m =
      let (response, m') = with_callback n query_name_response m in
      record {
        addr = addr;
        evm = h;
        sub_name_request_event = (h, (with_callback (suc n) query_name_request m').0);
        sub_name_response_event = (h, response);
      }

  pub resource_for-last :
      (now : ℕ) (addr : Address) (ms : List (Manager (Unit {0}))) (m : Manager (Unit {0}))
      (w : Bus N) (r : IpfsResolver (Bus N) ℕ Handle B)
      → let res = resource_of (length ms) w.issued addr m in
        resource_for
          (live_env p j ps uuid store)
          now
          addr
          (length ms)
          (record r { events = record w { managers = ms ++ m ∷ [] } })
        ≡ (
          ok res,
          record r {
            events = record w {
              managers = ms ++ with_both w.issued m ∷ [];
              issued = suc (suc w.issued);
            };
            resource_cache = Cache.add now addr.address res r.resource_cache;
          },
        )
  unfolding resource_for live_env live_events with_both resource_of
  resource_for-last now addr ms m w r =
      let (response, m') = with_callback w.issued query_name_response m in
      rw
        (
          on-last ms m query_name_response w,
          on-last ms m' query_name_request (record w { issued = suc w.issued }),
        )
        refl

  -- the manager as it is made
  unfoldable pub new_manager : Address → IpfsResolver (Bus N) ℕ Handle B → Manager (Unit {0})
  new_manager addr r = record {
    id = r.events.factory.id;
    name_space = r.events.factory.name_space;
    signer_addr = r.signer_addr;
    managed_addr = addr;
    subscriptions = new_subscriptions;
  }

  pub new-heard :
      (n : ℕ) (addr : Address) (r : IpfsResolver (Bus N) ℕ Handle B)
      → let m = with_both n (new_manager addr r) in
        (get query_name_request m.subscriptions ≡ tt ∷ [])
        × (get query_name_response m.subscriptions ≡ tt ∷ [])
  unfolding with_both with_callback new_manager get lookup insert bytes_eq Manager.on subscribe
      get_or_create
  new-heard n addr r = (refl, refl)

  -- the state behind a new manager and its subscriptions
  stationed :
      ℕ → Address → Bus N → IpfsResolver (Bus N) ℕ Handle B → IpfsResolver (Bus N) ℕ Handle B
  stationed now addr w r = record r {
    events = record w {
      managers = w.managers ++ with_both w.issued (new_manager addr r) ∷ [];
      issued = suc (suc w.issued);
    };
    resource_cache =
        Cache.add now addr.address
          (resource_of (length w.managers) w.issued addr (new_manager addr r)) r.resource_cache;
  }

  stationed-IsStation :
      (now : ℕ) (addr : Address) (w : Bus N) (r : IpfsResolver (Bus N) ℕ Handle B)
      → IsSteady (live_env p j ps uuid store) r
      → w.factory ≡ r.events.factory
      → IsStation addr
          (stationed now addr w r)
          (resource_of (length w.managers) w.issued addr (new_manager addr r))
          (with_both w.issued (new_manager addr r))
  unfolding stationed with_both with_callback resource_of Manager.on new_manager
  stationed-IsStation now addr w r steady same =
      let (requests, responses) = new-heard w.issued addr r in
      record {
        followed =
            λ later. get-added (live_env p j ps uuid store) now later addr.address _ r steady;
        own = refl;
        manager = get_elem?-last w.managers _;
        managed = refl;
        signer = refl;
        node = ap (λ (f : Manager.ManagerFactory). f.id) (sym same);
        space = ap (λ (f : Manager.ManagerFactory). f.name_space) (sym same);
        requests = requests;
        responses = responses;
      }

  -- Following an address that is not followed yet, without an error, adds exactly one event manager
  -- behind the others: it is found at any later time through the resource of the address, publishes
  -- and listens for that address in the name space of the node with the node's signer, and has the
  -- resolver's callback exactly once for requests and once for responses, when resources do not
  -- expire.
  pub subscribe_address-IsStation :
      (now : ℕ) (addr : Address) (r r' : IpfsResolver (Bus N) ℕ Handle B) (res : Resource ℕ Handle)
      → IsSteady (live_env p j ps uuid store) r
      → Cache.get now addr.address r.resource_cache ≡ none
      → subscribe_address (live_env p j ps uuid store) now addr r ≡ (ok res, r')
      → (m : Manager (Unit {0})) × IsStation addr r' res m
        × (r'.events.managers ≡ r.events.managers ++ m ∷ [])
  unfolding subscribe_address on_known live_env live_events build built Manager.build
      Manager.new_manager new_manager
  subscribe_address-IsStation now addr r r' res steady fresh h =
      on_subscribed (ps.subscribe (get_topic_name p j (new_manager addr r)) r.events.network).0
        (ps.subscribe (get_topic_name p j (new_manager addr r)) r.events.network).1
        (sym (rw fresh refl) ∙ h)
    where
      on_subscribed :
          (o : Outcome (Unit {0})) (n : N)
          → (let (b, w) =
                built p j ps uuid (continue o (λ _. lift (ok (new_manager addr r))) n) r.events in
              continue b
                (resource_for (live_env p j ps uuid store) now addr)
                (record r { events = w }))
            ≡ (ok res, r')
          → (m : Manager (Unit {0})) × IsStation addr r' res m
            × (r'.events.managers ≡ r.events.managers ++ m ∷ [])
      on_subscribed (ok u) n g =
          let w : Bus N = record (r.events) { network = n } in
          let (same, state) =
            run-end (sym (resource_for-last now addr w.managers (new_manager addr r) w r) ∙ g) in
          let left : stationed now addr w r ≡ r' = unfold stationed in state in
          (
            with_both w.issued (new_manager addr r),
            subst (λ x. IsStation addr x res (with_both w.issued (new_manager addr r))) left
                (subst
                  (λ x.
                    IsStation addr (stationed now addr w r) x
                      (with_both w.issued (new_manager addr r)))
                  same (stationed-IsStation now addr w r steady refl)),
            sym (ap (λ (x : IpfsResolver (Bus N) ℕ Handle B). x.events.managers) state),
          )
      on_subscribed (err c) n g = cc
      on_subscribed panic n g = cc
