-- ===== src/Resolver/Network/Latest.antt =====
-- resolver/ipfs_resolver.go: the resolutions that come in for one request, in any order.
pub mod Next
pub mod Heard
use setinstone.Prelude.{
  ℕ, suc, ◌+◌, ◌≤◌, ◌≡◌, ◌≢◌, refl, sym, ap, ◌∙◌, subst, Bool, true, false, Option, none, some,
  List, [], ◌∷◌, ◌⊎◌, Bytes, arith, All, bytes_eq, bytes_eq_iff, bytes_eq_refl, Bool-cases, inl,
  inr, if◌then◌else◌, ltb,
}
use setinstone.Prelude.Int.{pos}
use setinstone.Prelude.Outcome.{Outcome, ok, err, panic}
use setinstone.Message.{Message, extract_query, older, older_times, verify_signature}
use setinstone.Cache
use setinstone.Cache.{expiry, is_past}
use setinstone.Resolver.Network.{Env, IpfsResolver, put_in_cache, remove_pending_query}
use setinstone.Resolver.Network.Answer.{handle_resolution, judged, cached, replaces}
use setinstone.Resolver.Network.Newest.{get-put_in_cache, cached-other, handled}

-- A resolution, and when it comes in.
pub record Arrival : Type 0 where
  pub now : ℕ
  pub message : Message

-- During the time to live of what comes in at the start, where that is `suc ttl`.
abbrev pub IsDuring : ℕ → ℕ → ℕ → Type 0
IsDuring start ttl now = (start ≤ now) × (now ≤ start + suc ttl)

-- The message is that of an arrival.
pub data Came (m : Message) : List Arrival → Type 0 where
  first : (a : Arrival) (arrivals : List Arrival) → a.message ≡ m → Came m (a ∷ arrivals)
  later : (a : Arrival) (arrivals : List Arrival) → Came m arrivals → Came m (a ∷ arrivals)

module _ {J W H S B : Type 0} (e : Env J W H S B) where
  -- The resolutions are handled in a row.
  unfoldable pub hear : List Arrival → IpfsResolver W H S B → IpfsResolver W H S B
  hear [] r = r
  hear (a ∷ arrivals) r = hear arrivals (handle_resolution e a.now a.message r).1

  -- The message is signed and answers the request.
  abbrev pub Counts : Bytes → Message → Type 0
  Counts k m = (verify_signature e.primitives m ≡ ok tt) × ((extract_query m).1 ≡ k)

  abbrev pub HasTime : Message → ℕ → Type 0
  HasTime m t = e.primitives.parse_time m.timestamp ≡ some t

  -- What is cached is not older than the time.
  abbrev pub AtLeast : ℕ → Option Message → Type 0
  AtLeast u o = (m : Message) × (t : ℕ) × (o ≡ some m) × HasTime m t × (u ≤ t)

  -- What is cached after some resolutions: a message that counts among them or what was cached before, and
  -- not older than any of these.
  pub record IsLatest (k : Bytes) (before : Option Message) (arrivals : List Arrival)
      (after : Option Message) : Type 0 where
    pub source : (after ≡ before) ⊎ (m : Message) × (after ≡ some m) × Counts k m × Came m arrivals
    pub kept : (m : Message) (t : ℕ) → before ≡ some m → HasTime m t → AtLeast t after
    pub newest :
        All (λ a. Counts k a.message → (u : ℕ) × HasTime a.message u × AtLeast u after) arrivals

  -- What is cached has a time.
  abbrev pub IsTimed : Option Message → Type 0
  IsTimed none = Unit {0}
  IsTimed (some m) = (t : ℕ) × HasTime m t

  module _ (k : Bytes) (start ttl : ℕ) where
    -- A resolution comes in during the time to live, and has a time when it counts.
    abbrev pub IsTimely : Arrival → Type 0
    IsTimely a = IsDuring start ttl a.now × (Counts k a.message → (t : ℕ) × HasTime a.message t)

    -- What is cached during the time to live.
    pub record Holds (o : Option Message) (r : IpfsResolver W H S B) : Type 0 where
      pub lasting : r.resolution_cache.default_ttl ≡ pos (suc ttl)
      pub found : (now : ℕ) → IsDuring start ttl now → Cache.get now k r.resolution_cache ≡ o
