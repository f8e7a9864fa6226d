-- ===== src/Resolver/Network/Live/Reachable.antt =====
-- resolver/ipfs_resolver.go over event/manager.go: the states of a node from its start, and the managers that
-- it has in them.
use setinstone.Prelude.{ℕ, ◌≡◌, subst, [], some, Bytes}
use setinstone.Prelude.Assoc.{lookup}
use setinstone.Prelude.Outcome.{Outcome, ok, err, panic}
use setinstone.Primitives.{Primitives}
use setinstone.Address.{Address}
use setinstone.Message.Json.{Json}
use setinstone.Cache
use setinstone.Cache.{MemoryCache, CacheRecord}
use setinstone.Event.Manager.{PubSub}
use setinstone.Resolver.Backend.{Backend}
use setinstone.Resolver.Network.{IpfsResolver, Resource, new_ipfs_resolver, configured}
use setinstone.Resolver.Network.Query.{Input, step}
use setinstone.Resolver.Network.Live.{Bus, Handle, live_env}
use setinstone.Resolver.Network.Live.Owner.{IsOwned, owner_unique}
use setinstone.Resolver.Network.Live.Owned.{LeavesManagers, step-IsOwned}

-- No two addresses have one manager.
abbrev pub IsSeparate : MemoryCache (Resource ℕ Handle) → Type 0
IsSeparate c =
    (k l : Bytes) (a b : CacheRecord (Resource ℕ Handle))
    → lookup k c.entries ≡ some a
    → lookup l c.entries ≡ some b
    → a.value.evm ≡ b.value.evm
    → k ≡ l

module _ {J N B : Type 0} (p : Primitives) (j : Json J) (ps : PubSub N) (uuid : ℕ → Bytes)
    (store : Backend B) where
  -- A state that `NewIpfsResolver` without options makes, or a step from such a state.
  pub data IsReachable : IpfsResolver (Bus N) ℕ Handle B → Type 0 where
    starts :
        (signer : Outcome Address) (b : B) (w : Bus N) (r : IpfsResolver (Bus N) ℕ Handle B)
        → new_ipfs_resolver signer b w [] ≡ ok r
        → IsReachable r
    steps :
        (i : Input (Bus N)) (r r' : IpfsResolver (Bus N) ℕ Handle B)
        → IsReachable r
        → LeavesManagers p j ps uuid store i r
        → (step (live_env p j ps uuid store) i r).1 ≡ r'
        → IsReachable r'

  abbrev AllOk : Outcome (IpfsResolver (Bus N) ℕ Handle B) → Type 0
  AllOk (ok r) = IsOwned r.resource_cache r.events.managers
  AllOk (err c) = Unit {0}
  AllOk panic = Unit {0}

  new_ipfs_resolver-IsOwned :
      (signer : Outcome Address) (b : B) (w : Bus N) (r : IpfsResolver (Bus N) ℕ Handle B)
      → new_ipfs_resolver signer b w [] ≡ ok r
      → IsOwned r.resource_cache r.events.managers
  unfolding new_ipfs_resolver configured lookup Cache.new_memory_cache
  new_ipfs_resolver-IsOwned (ok a) b w r e =
      subst (λ (x : Outcome (IpfsResolver (Bus N) ℕ Handle B)). AllOk x) e (λ k kept found. cc)
  new_ipfs_resolver-IsOwned (err c) b w r e = cc
  new_ipfs_resolver-IsOwned panic b w r e = cc

  IsReachable-IsOwned :
      (r : IpfsResolver (Bus N) ℕ Handle B)
      → IsReachable r
      → IsOwned r.resource_cache r.events.managers
  IsReachable-IsOwned _ (starts signer b w r e) = new_ipfs_resolver-IsOwned signer b w r e
  IsReachable-IsOwned _ (steps i r r' before left e) =
      subst (λ (x : IpfsResolver (Bus N) ℕ Handle B). IsOwned x.resource_cache x.events.managers) e
        (step-IsOwned p j ps uuid store i r left (IsReachable-IsOwned r before))

  -- In every state that a resolver over the event managers reaches from `NewIpfsResolver` without
  -- options, when the rest of the program leaves the managers as they are, each address in the
  -- resource cache has a manager that no other address has: the one its resource points to
  -- publishes and listens for that address, has the callback exactly once for requests and once for
  -- responses, and both subscriptions point to it.
  pub IsReachable-IsSeparate :
      (r : IpfsResolver (Bus N) ℕ Handle B)
      → IsReachable r
      → IsOwned r.resource_cache r.events.managers × IsSeparate r.resource_cache
  IsReachable-IsSeparate r h =
      let owned = IsReachable-IsOwned r h in
      (
        owned,
        λ k l a b at_k at_l same.
            let (m, p) = owned k a at_k in
            let (n, q) = owned l b at_l in
            owner_unique k l a.value b.value r.events.managers m n p q same,
      )
