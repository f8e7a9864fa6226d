-- ===== src/Tests/Managers.antt =====
-- The managers of a node that follows two addresses.
use setinstone.Prelude.{◌≡◌, refl, [], codes}
use setinstone.Prelude.Int.{pos}
use setinstone.Prelude.Outcome.{ok}
use setinstone.Cache
use setinstone.Resolver.Backend.{memory_backend}
use setinstone.Resolver.Network.{new_ipfs_resolver, configured, resolution_ttl}
use setinstone.Resolver.Network.Query.{subscribes, removes, step}
use setinstone.Resolver.Network.Live.Owner.{IsOwned}
use setinstone.Resolver.Network.Live.Reachable.{
  IsReachable, starts, steps, IsSeparate, IsReachable-IsSeparate,
}
use setinstone.Tests.Events.{log, signer}
use setinstone.Tests.Json.{toy_json}
use setinstone.Tests.Live.{env, uuid, Node, fresh}
use setinstone.Tests.Samples.{toy}

-- a node without addresses, with one, with two, and with the second alone
abbrev first : Node
first = record (fresh (codes "p")) {
  resolution_cache = Cache.new_memory_cache (pos resolution_ttl);
}

abbrev second : Node
second = (step env (subscribes 3 (codes "a")) first).1

abbrev third : Node
third = (step env (subscribes 4 (codes "b")) second).1

abbrev last : Node
last = (step env (removes 5 (codes "a")) third).1

first-made : new_ipfs_resolver (ok signer) first.backend first.events [] ≡ ok first
unfolding new_ipfs_resolver configured Cache.new_memory_cache
first-made = refl

last-IsReachable : IsReachable toy toy_json log uuid memory_backend last
last-IsReachable =
    steps (removes 5 (codes "a")) third last
      (steps (subscribes 4 (codes "b")) second third
        (steps (subscribes 3 (codes "a")) first second
          (starts (ok signer) first.backend first.events first first-made) tt refl)
        tt refl)
      tt refl

IsReachable-IsSeparate_example :
    IsOwned last.resource_cache last.events.managers × IsSeparate last.resource_cache
IsReachable-IsSeparate_example =
    IsReachable-IsSeparate toy toy_json log uuid memory_backend last last-IsReachable
