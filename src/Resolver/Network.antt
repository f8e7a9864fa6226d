-- ===== src/Resolver/Network.antt =====
-- resolver/ipfs_resolver.go: the resolver of names over signed events on the network. Its state, the
-- addresses that it follows, and its names. Both caches are those of cache/memory.go. The logger is left
-- out.
pub mod Answer
pub mod Query
pub mod Frame
pub mod Sources
pub mod Verified
pub mod Resolved
pub mod Protocol
pub mod Forged
pub mod Managed
pub mod Newest
pub mod Latest
pub mod Linked
pub mod Live
use setinstone.Prelude.{
  ℕ, [], Bool, true, false, Option, none, some, List, ◌∷◌, Bytes, bytes_eq, if◌then◌else◌,
}
use setinstone.Prelude.Int.{pos}
use setinstone.Prelude.Assoc.{Assoc, insert, erase, lookup}
use setinstone.Prelude.Action.{Action, reads, lift, continue, ◌>>=◌, ◌>>◌}
use setinstone.Prelude.Outcome.{
  Outcome, ok, err, panic, no_private_key, unmanaged_address, name_not_found,
}
use setinstone.Primitives.{Primitives}
use setinstone.Address.{Address, KeyPair, has_keys}
use setinstone.Message.{Message, extract_query, get_id, query_name_request, query_name_response}
use setinstone.Message.Json.{Json}
use setinstone.Cache
use setinstone.Cache.{MemoryCache, new_memory_cache}
use setinstone.Resolver.{get_query_name_request_from_name}
use setinstone.Resolver.Backend.{Backend}

-- event.ManagerFactory, event.Manager and event.Subscription, on a state `W` that all managers share: `H`
-- is a manager and `S` a subscription. The callback of every subscription is `handle_event`.
pub record Events (W H S : Type 0) : Type 0 where
  pub build : Address → Address → Action W H
  pub on : H → Bytes → W → S × W
  pub emit : H → Bytes → Bytes → Action W (Unit {0})
  pub unsubscribe : S → W → W

pub record Resource (H S : Type 0) : Type 0 where
  pub addr : Address
  pub evm : H
  pub sub_name_request_event : S
  pub sub_name_response_event : S

-- `sending` holds the messages of the goroutines of `send_resolution` that sleep.
pub record IpfsResolver (W H S B : Type 0) : Type 0 where
  pub signer_addr : Address
  pub resource_cache : MemoryCache (Resource H S)
  pub resolution_cache : MemoryCache Message
  pub pending : Assoc Bool
  pub backend : B
  pub events : W
  pub sending : List Message

-- What a resolver calls.
pub record Env (J W H S B : Type 0) : Type 0 where
  pub primitives : Primitives
  pub json : Json J
  pub manager : Events W H S
  pub store : Backend B

-- ten seconds, in nanoseconds
abbrev pub resolution_ttl : ℕ
resolution_ttl = 10000000000

unfoldable pub keys_of_found : {H S : Type 0} → Option (Resource H S) → Bool
keys_of_found none = false
keys_of_found (some res) = has_keys res.addr

found_message : Option Message → Outcome Message
found_message none = err name_not_found
found_message (some m) = ok m

abbrev pub IpfsResolverOption : (W H S B : Type 0) → Type 0
IpfsResolverOption W H S B = IpfsResolver W H S B → IpfsResolver W H S B

module _ {W H S B : Type 0} where
  unfoldable pub with_backend : B → IpfsResolverOption W H S B
  with_backend b r = record r { backend = b }

  unfoldable pub with_signer_addr : Address → IpfsResolverOption W H S B
  with_signer_addr a r = record r { signer_addr = a }

  unfoldable pub with_resource_cache : MemoryCache (Resource H S) → IpfsResolverOption W H S B
  with_resource_cache c r = record r { resource_cache = c }

  unfoldable pub with_resolution_cache : MemoryCache Message → IpfsResolverOption W H S B
  with_resolution_cache c r = record r { resolution_cache = c }

  unfoldable pub configured : List (IpfsResolverOption W H S B) → IpfsResolverOption W H S B
  configured [] r = r
  configured (option ∷ options) r = configured options (option r)

  -- `signer` is the new address, `b` the new backend in memory and `w` the state of the events.
  unfoldable pub new_ipfs_resolver :
      Outcome Address → B → W → List (IpfsResolverOption W H S B) → Outcome (IpfsResolver W H S B)
  unfolding configured
  new_ipfs_resolver (err c) b w options = err c
  new_ipfs_resolver panic b w options = panic
  new_ipfs_resolver (ok signer) b w options = ok (
      configured options (record {
        signer_addr = signer;
        resource_cache = new_memory_cache (pos 0);
        resolution_cache = new_memory_cache (pos resolution_ttl);
        pending = [];
        backend = b;
        events = w;
        sending = [];
      }))

  -- `now` is the time.
  unfoldable pub is_managed : ℕ → Message → IpfsResolver W H S B → Bool
  unfolding keys_of_found
  is_managed now rec r = keys_of_found (Cache.get now rec.address r.resource_cache)

  unfoldable pub get_from_cache : ℕ → Bytes → IpfsResolver W H S B → Outcome Message
  unfolding found_message
  get_from_cache now name r = found_message (Cache.get now name r.resolution_cache)

  unfoldable pub put_in_cache : ℕ → Message → IpfsResolver W H S B → IpfsResolver W H S B
  put_in_cache now rec r = record r {
    resolution_cache = Cache.add now (extract_query rec).1 rec r.resolution_cache;
  }

  unfoldable pub remove_pending_query : Message → IpfsResolver W H S B → IpfsResolver W H S B
  remove_pending_query msg r = record r { pending = erase (extract_query msg).1 r.pending }

module _ {J W H S B : Type 0} (e : Env J W H S B) where
  unfoldable pub add_pending_query : Message → IpfsResolver W H S B → IpfsResolver W H S B
  add_pending_query msg r = record r { pending = insert (get_id e.primitives msg) true r.pending }

  -- the new resource, behind its manager
  unfoldable resource_for : ℕ → Address → H → Action (IpfsResolver W H S B) (Resource H S)
  resource_for now addr evm r =
      let (response, w) = e.manager.on evm query_name_response r.events in
      let (request, w') = e.manager.on evm query_name_request w in
      let res : Resource H S = record {
        addr = addr;
        evm = evm;
        sub_name_request_event = request;
        sub_name_response_event = response;
      } in
      (
        ok res,
        record r { events = w'; resource_cache = Cache.add now addr.address res r.resource_cache },
      )

  unfoldable on_known :
      Option (Resource H S) → ℕ → Address → Action (IpfsResolver W H S B) (Resource H S)
  unfolding resource_for
  on_known (some res) now addr r = (ok res, r)
  on_known none now addr r =
      let (built, w) = e.manager.build r.signer_addr addr r.events in
      continue built (resource_for now addr) (record r { events = w })

  -- the method `subscribe`
  unfoldable pub subscribe_address : ℕ → Address → Action (IpfsResolver W H S B) (Resource H S)
  unfolding on_known
  subscribe_address now addr r = on_known (Cache.get now addr.address r.resource_cache) now addr r

  -- the method `Subscribe`
  unfoldable pub subscribe : ℕ → Bytes → Action (IpfsResolver W H S B) (Resource H S)
  subscribe now addr = subscribe_address now (record { keys = none; address = addr })

  -- A nil key pair panics.
  manage_with : Option KeyPair → ℕ → Address → Action (IpfsResolver W H S B) (Unit {0})
  manage_with none now addr = lift panic
  manage_with (some k) now addr =
      if bytes_eq k.private_key []
      then lift (err no_private_key)
      else (do res ← subscribe_address now addr; lift (ok tt))

  unfoldable pub manage : ℕ → Address → Action (IpfsResolver W H S B) (Unit {0})
  unfolding manage_with
  manage now addr = manage_with addr.keys now addr

  dropped : Option (Resource H S) → Bytes → IpfsResolver W H S B → IpfsResolver W H S B
  dropped none addr r = r
  dropped (some res) addr r =
      let w = e.manager.unsubscribe res.sub_name_request_event r.events in
      record r {
        events = e.manager.unsubscribe res.sub_name_response_event w;
        resource_cache = Cache.delete addr r.resource_cache;
      }

  unfoldable pub remove : ℕ → Bytes → IpfsResolver W H S B → IpfsResolver W H S B
  unfolding dropped
  remove now addr r = dropped (Cache.get now addr r.resource_cache) addr r

  -- a method of the backend, on its part of the state
  on_backend : {A : Type 0} → Action B A → Action (IpfsResolver W H S B) A
  on_backend f r = let (o, b) = f r.backend in (o, record r { backend = b })

  unfoldable pub add : ℕ → Bytes → Bytes → Action (IpfsResolver W H S B) (Unit {0})
  unfolding on_backend
  add now name value = do
    rec ← lift (get_query_name_request_from_name e.primitives name)
    managed ← reads (λ r. ok (is_managed now rec r))
    if managed then on_backend (e.store.add now name value) else lift (err unmanaged_address)
