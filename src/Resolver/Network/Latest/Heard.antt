-- ===== src/Resolver/Network/Latest/Heard.antt =====
-- resolver/ipfs_resolver.go: the resolutions that come in, one after the other.
use setinstone.Prelude.{
  ℕ, suc, ◌+◌, ◌≤◌, ◌≡◌, ◌≢◌, refl, sym, ap, ◌∙◌, subst, Bool, true, false, Option, some, List, [],
  ◌∷◌, ◌⊎◌, Bytes, arith, All, bytes_eq, bytes_eq_iff, Bool-cases, inl, inr, if◌then◌else◌,
}
use setinstone.Prelude.Int.{pos}
use setinstone.Prelude.Outcome.{Outcome, ok, err, panic}
use setinstone.Message.{Message, extract_query, verify_signature}
use setinstone.Cache
use setinstone.Cache.{expiry, is_past}
use setinstone.Resolver.Network.{Env, IpfsResolver, put_in_cache, remove_pending_query}
use setinstone.Resolver.Network.Answer.{handle_resolution, judged, cached, replaces}
use setinstone.Resolver.Network.Newest.{get-put_in_cache, cached-other}
use setinstone.Resolver.Network.Latest.{
  Arrival, Came, first, later, hear, Counts, HasTime, AtLeast, IsLatest, IsTimed, IsDuring,
  IsTimely, Holds,
}
use setinstone.Resolver.Network.Latest.Next.{Next, AtLeast-self, passed, chosen}

not_past :
    (now t start ttl : ℕ)
    → start ≤ now
    → t ≤ start + suc ttl
    → is_past (expiry now (pos (suc ttl))) t ≡ false
unfolding is_past expiry
not_past now t start ttl a b = ground (arith, a, b)

not_own : (j k : Bytes) → bytes_eq j k ≡ false → k ≢ j
not_own j k f p = let t : bytes_eq j k ≡ true = (bytes_eq_iff j k).1 (sym p) in cc

module _ {J W H S B : Type 0} (e : Env J W H S B) (k : Bytes) (start ttl : ℕ) where
  cached-Holds :
      (o : Option Message) (now : ℕ) (msg : Message) (r : IpfsResolver W H S B)
      → (extract_query msg).1 ≡ k
      → IsDuring start ttl now
      → Holds e k start ttl o r
      → Holds e k start ttl (if replaces e o msg then some msg else o) (cached e now msg r)
  unfolding cached put_in_cache Cache.add Cache.add_with_ttl
  cached-Holds o now msg r refers during h =
      subst
        (λ x.
          Holds e k start ttl (if replaces e o msg then some msg else o)
            (if replaces e x msg then put_in_cache now msg r else r))
        (sym (ap (λ q. Cache.get now q r.resolution_cache) refers ∙ h.found now during))
        (on_test (replaces e o msg))
    where
      own : bytes_eq (extract_query msg).1 k ≡ true
      own = (bytes_eq_iff (extract_query msg).1 k).1 refers

      put :
          (t : ℕ)
          → IsDuring start ttl t
          → Cache.get t k (put_in_cache now msg r).resolution_cache ≡ some msg
      put t live =
          get-put_in_cache e now t k msg r
          ∙ rw (own, h.lasting, not_past now t start ttl during.0 live.1) refl

      on_test :
          (b : Bool)
          → Holds e k start ttl
              (if b then some msg else o)
              (if b then put_in_cache now msg r else r)
      on_test true = record { lasting = h.lasting; found = put }
      on_test false = h

  cached-ttl :
      (now : ℕ) (msg : Message) (r : IpfsResolver W H S B)
      → (cached e now msg r).resolution_cache.default_ttl ≡ r.resolution_cache.default_ttl
  unfolding cached put_in_cache Cache.add Cache.add_with_ttl
  cached-ttl now msg r =
      on_test (replaces e (Cache.get now (extract_query msg).1 r.resolution_cache) msg)
    where
      on_test :
          (b : Bool)
          → (if b then put_in_cache now msg r else r).resolution_cache.default_ttl
            ≡ r.resolution_cache.default_ttl
      on_test true = refl
      on_test false = refl

  stepped :
      (o : Option Message) (a : Arrival) (r : IpfsResolver W H S B)
      → Holds e k start ttl o r
      → IsTimed e o
      → IsTimely e k start ttl a
      → (o' : Option Message) × Next e k a o o'
        × Holds e k start ttl o' (handle_resolution e a.now a.message r).1
  unfolding handle_resolution judged remove_pending_query
  stepped o a r h timed (during, timely) =
      on_verified (verify_signature e.primitives a.message) refl
    where
      on_verified :
          (v : Outcome (Unit {0}))
          → verify_signature e.primitives a.message ≡ v
          → (o' : Option Message) × Next e k a o o'
            × Holds e k start ttl o' (judged e a.now a.message v r).1
      on_verified (ok tt) q = elim (Bool-cases (bytes_eq (extract_query a.message).1 k)) [
        | inl same ↦
            let refers = (bytes_eq_iff (extract_query a.message).1 k).0 same in
            let (t, time) = timely (q, refers) in
            let held = cached-Holds o a.now a.message r refers during h in
            (
              (if replaces e o a.message then some a.message else o),
              chosen e k a o t timed (q, refers) time,
              record { lasting = held.lasting; found = held.found },
            )
        | inr other ↦
            let ne : k ≢ (extract_query a.message).1 =
              not_own (extract_query a.message).1 k other in
            (
              o,
              passed e k a o timed (λ c. absurd (ne (sym c.1))),
              record {
                lasting = cached-ttl a.now a.message r ∙ h.lasting;
                found = λ now live. cached-other e a.now now k a.message r ne ∙ h.found now live;
              },
            )
      ]
      on_verified (err c) q = (o, passed e k a o timed (λ c. absurd (bad q c.0)), h)
        where
          bad : {v : Outcome (Unit {0})} → v ≡ err c → v ≢ ok tt
          bad f g = cc (f, g)
      on_verified panic q = (o, passed e k a o timed (λ c. absurd (bad q c.0)), h)
        where
          bad : {v : Outcome (Unit {0})} → v ≡ panic → v ≢ ok tt
          bad f g = cc (f, g)

  -- What is not older than something that is not older.
  AtLeast-kept :
      (u : ℕ) (o o' : Option Message)
      → ((m : Message) (t : ℕ) → o ≡ some m → HasTime e m t → AtLeast e t o')
      → AtLeast e u o
      → AtLeast e u o'
  AtLeast-kept u o o' kept (m, t, q, time, le) =
      let (n, v, r, time', le') = kept m t q time in (n, v, r, time', omega (arith, le, le'))

  -- One more resolution in front.
  IsLatest-Next :
      (a : Arrival) (arrivals : List Arrival) (o o' o'' : Option Message)
      → Next e k a o o'
      → IsLatest e k o' arrivals o''
      → IsLatest e k o (a ∷ arrivals) o''
  IsLatest-Next a arrivals o o' o'' n l = record {
    source = on_source l.source;
    kept = λ m t q h. AtLeast-kept t o' o'' l.kept (n.kept m t q h);
    newest = (
      λ counts.
          let (u, time, bound) = n.newest counts in (u, time, AtLeast-kept u o' o'' l.kept bound),
      l.newest,
    );
  }
    where
      on_own :
          o'' ≡ o'
          → (o' ≡ o) ⊎ ((o' ≡ some a.message) × Counts e k a.message)
          → (o'' ≡ o) ⊎ (m : Message) × (o'' ≡ some m) × Counts e k m × Came m (a ∷ arrivals)
      on_own same (inl p) = inl (same ∙ p)
      on_own same (inr (p, counts)) = inr (a.message, same ∙ p, counts, first a arrivals refl)

      on_source :
          (o'' ≡ o') ⊎ (m : Message) × (o'' ≡ some m) × Counts e k m × Came m arrivals
          → (o'' ≡ o) ⊎ (m : Message) × (o'' ≡ some m) × Counts e k m × Came m (a ∷ arrivals)
      on_source (inl same) = on_own same n.source
      on_source (inr (m, p, counts, came)) = inr (m, p, counts, later a arrivals came)

  -- Of resolutions that are handled in a row, in any order and with others among them, the latest
  -- is cached: when everything comes in during the time to live that begins at the start, what is
  -- cached for the request at first, if anything, does not expire in it, and that and each message
  -- that counts (its signature verifies and it refers to the request) have a time stamp that is a
  -- time, then up to the end of that time to live the cache gives, for the request, what it gave at
  -- first or one of the messages that count, and its time is not before that of any of them.
  pub hear-IsLatest :
      (arrivals : List Arrival) (o : Option Message) (r : IpfsResolver W H S B)
      → Holds e k start ttl o r
      → IsTimed e o
      → All (IsTimely e k start ttl) arrivals
      → (o' : Option Message) × IsLatest e k o arrivals o'
        × Holds e k start ttl o' (hear e arrivals r)
  unfolding hear
  hear-IsLatest [] o r h timed _ = (
    o,
    record { source = inl refl; kept = λ m t q time. AtLeast-self e k m t o q time; newest = tt },
    h,
  )
  hear-IsLatest (a ∷ arrivals) o r h timed (timely, rest) =
      let (o', n, held) = stepped o a r h timed timely in
      let (o'', l, holds) =
        hear-IsLatest arrivals o' (handle_resolution e a.now a.message r).1 held n.timed rest in
      (o'', IsLatest-Next a arrivals o o' o'' n l, holds)
