-- ===== src/Resolver/Network/Verified.antt =====
-- resolver/ipfs_resolver.go: the messages in the cache of resolutions.
use setinstone.Prelude.{ℕ, ◌≡◌, refl, some, Bytes}
use setinstone.Prelude.Assoc.{lookup}
use setinstone.Prelude.Outcome.{ok}
use setinstone.Message.{Message, extract_query, verify_signature}
use setinstone.Cache.{CacheRecord, MemoryCache}
use setinstone.Resolver.Network.{Env, IpfsResolver}
use setinstone.Resolver.Network.Answer.{handle_resolution}
use setinstone.Resolver.Network.Query.{Input, step}
use setinstone.Resolver.Network.Sources.{Accepts, handle_resolution-AllCached, step-AllCached}

module _ {J W H S B : Type 0} (e : Env J W H S B) where
  abbrev Verified : Bytes → Message → Type 0
  Verified k m = (verify_signature e.primitives m ≡ ok tt) × ((extract_query m).1 ≡ k)

  -- Every resolution has a signature that verifies, and stands under its reference.
  abbrev pub IsVerified : MemoryCache Message → Type 0
  IsVerified c =
      (k : Bytes) (m : CacheRecord Message)
      → lookup k c.entries ≡ some m
      → (verify_signature e.primitives m.value ≡ ok tt) × ((extract_query m.value).1 ≡ k)

  -- The same of the cache of a resolver.
  abbrev pub AllVerified : IpfsResolver W H S B → Type 0
  AllVerified r = IsVerified r.resolution_cache

  verified : (m : Message) → Accepts e Verified m
  verified m good = (good, refl)

  pub handle_resolution-AllVerified :
      (now : ℕ) (msg : Message) (r : IpfsResolver W H S B)
      → AllVerified r
      → AllVerified (handle_resolution e now msg r).1
  handle_resolution-AllVerified now msg r =
      handle_resolution-AllCached e Verified now msg r (verified msg)

  -- Every step of the resolver (an event, a goroutine that wakes, a call of Add, Manage, Subscribe
  -- or Remove, the start of a query, a change of the events) keeps that each cached resolution has
  -- a signature that verifies and stands under the reference that it carries.
  pub step-AllVerified :
      (i : Input W) (r : IpfsResolver W H S B) → AllVerified r → AllVerified (step e i r).1
  step-AllVerified i r = step-AllCached e Verified i r (λ m _. verified m)
