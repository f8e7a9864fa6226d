-- ===== src/Resolver/Network/Resolved.antt =====
-- resolver/ipfs_resolver.go: what `Resolve` returns for a name of another node.
use setinstone.Prelude.{
  ℕ, ◌≡◌, refl, sym, ap, ◌∙◌, subst, Bool, true, false, [], ◌∷◌, Option, none, some, List, ◌⊎◌,
  Bytes, inl, inr, if◌then◌else◌,
}
use setinstone.Prelude.Assoc.{lookup}
use setinstone.Prelude.Action.{Action, continue, run-bind, run-end, lift, ◌>>=◌}
use setinstone.Prelude.Outcome.{Outcome, ok, err, panic}
use setinstone.Message.{Message, extract_query, get_id, verify_signature}
use setinstone.Message.Json.{empty}
use setinstone.Cache
use setinstone.Cache.{CacheRecord, MemoryCache, is_expired, live}
use setinstone.Resolver.{get_query_name_request_from_name}
use setinstone.Resolver.Network.{Env, IpfsResolver, is_managed, get_from_cache, found_message}
use setinstone.Resolver.Network.Query.{
  Round, run, look, poll, poll_asked, query, deadline_exceeded, cached_or_queried, resolved,
  resolve, ask,
}
use setinstone.Resolver.Network.Frame.{resolutions, ask-Keeps}
use setinstone.Resolver.Network.Verified.{AllVerified}
use setinstone.Resolver.Network.Sources.{IsHeard, Accepts, AllCached, unchanged, run-AllCached}

module _ {J W H S B : Type 0} (e : Env J W H S B) where
  -- The message is brought in the pause of one of the rounds.
  pub data IsHeardIn (m : Message) : List (Round W) → Type 0 where
    first :
        (round : Round W) (rounds : List (Round W))
        → IsHeard e m round.inputs
        → IsHeardIn m (round ∷ rounds)
    later :
        (round : Round W) (rounds : List (Round W))
        → IsHeardIn m rounds
        → IsHeardIn m (round ∷ rounds)

  -- The message answers the request, its signature verifies, and it was cached before or has come in as a
  -- response during the rounds.
  pub record Answers (key : Bytes) (r : IpfsResolver W H S B) (rounds : List (Round W))
      (m : Message) : Type 0 where
    pub verified : verify_signature e.primitives m ≡ ok tt
    pub refers : (extract_query m).1 ≡ key
    pub source :
        ((c : CacheRecord Message) × (lookup key r.resolution_cache.entries ≡ some c)
          × (c.value ≡ m))
        ⊎ IsHeardIn m rounds

  pub resolve-unmanaged :
      (now : ℕ) (name : Bytes) (rec : Message) (rounds : List (Round W)) (r : IpfsResolver W H S B)
      → get_query_name_request_from_name e.primitives name ≡ ok rec
      → is_managed now rec r ≡ false
      → resolve e now name rounds r
        ≡ (cached_or_queried e now rec rounds (get_from_cache now (get_id e.primitives rec) r)
              >>= λ rc. lift (ok (extract_query rc).0))
            r
  unfolding resolve resolved ◌>>=◌
  resolve-unmanaged now name rec rounds r parsed other = rw (parsed, other) refl

  -- What the cache gives.
  module _ (P : Bytes → Message → Type 0) where
    from_cache :
        (now : ℕ) (key : Bytes) (r : IpfsResolver W H S B) (m : Message)
        → AllCached e P r.resolution_cache
        → get_from_cache now key r ≡ ok m
        → P key m
    unfolding get_from_cache found_message Cache.get live
    from_cache now key r m h g = on_found (lookup key r.resolution_cache.entries) refl g
      where
        on_found :
            (o : Option (CacheRecord Message))
            → lookup key r.resolution_cache.entries ≡ o
            → found_message (live now o) ≡ ok m
            → P key m
        on_found none q k = cc
        on_found (some c) q k = on_live (is_expired c now) k
          where
            on_live : (b : Bool) → found_message (if b then none else some c.value) ≡ ok m → P key m
            on_live true k = cc
            on_live false k = let same : c.value ≡ m = cc k in subst (P key) same (h key c q)

    looked :
        (now : ℕ) (key : Bytes) (rest : Action (IpfsResolver W H S B) Message)
        (r r' : IpfsResolver W H S B) (m : Message)
        → AllCached e P r.resolution_cache
        → (rest r ≡ (ok m, r') → P key m)
        → look e (get_from_cache now key r) rest r ≡ (ok m, r')
        → P key m
    unfolding look
    looked now key rest r r' m h k g = on_look (get_from_cache now key r) refl g
      where
        on_look :
            (o : Outcome Message)
            → get_from_cache now key r ≡ o
            → look e o rest r ≡ (ok m, r')
            → P key m
        on_look (ok found) q l = from_cache now key r m h (q ∙ λ i. (l i).0)
        on_look (err c) q l = k l
        on_look panic q l = cc

    -- What the loop returns.
    polled :
        (rounds : List (Round W)) (now : ℕ) (key : Bytes) (r r' : IpfsResolver W H S B)
        (m : Message)
        → ((x : Message) → IsHeardIn x rounds → Accepts e P x)
        → AllCached e P r.resolution_cache
        → poll e now key rounds r ≡ (ok m, r')
        → P key m
    unfolding poll
    polled [] now key r r' m accepts h g =
        looked now key (lift deadline_exceeded) r r' m h (λ l. cc) g
    polled (round ∷ rounds) now key r r' m accepts h g =
        looked now key _ r r' m h
          (on_run (run e round.inputs r).0 (run e round.inputs r).1
            (run-AllCached e P round.inputs r (λ x b. accepts x (first round rounds b)) h)
            (λ s. polled rounds round.later key s r' m (λ x b. accepts x (later round rounds b))))
          g
      where
        on_run :
            (o : Outcome (Unit {0})) (s : IpfsResolver W H S B)
            → AllCached e P s.resolution_cache
            → ((t : IpfsResolver W H S B)
                → AllCached e P t.resolution_cache
                → poll e round.later key rounds t ≡ (ok m, r')
                → P key m)
            → continue o (λ _. poll e round.later key rounds) s ≡ (ok m, r')
            → P key m
        on_run (ok _) s v k l = k s v l
        on_run (err c) s v k l = cc
        on_run panic s v k l = cc

    -- The empty message of a request that was not published, or what the loop returns.
    queried :
        (now : ℕ) (rec : Message) (rounds : List (Round W)) (r r' : IpfsResolver W H S B)
        (m : Message)
        → ((x : Message) → IsHeardIn x rounds → Accepts e P x)
        → AllCached e P r.resolution_cache
        → query e now rec rounds r ≡ (ok m, r')
        → ((m ≡ empty) × (ask e now rec r ≡ (ok false, r'))) ⊎ P (get_id e.primitives rec) m
    unfolding query poll_asked
    queried now rec rounds r r' m accepts h g =
        let (asked, t, start, rest) = run-bind (ask e now rec) (poll_asked e now rec rounds) r g in
        let same : resolutions e t ≡ resolutions e r =
          ap (λ (x : Outcome Bool × IpfsResolver W H S B). resolutions e x.1) (sym start)
          ∙ ask-Keeps e now rec r in
        on_asked asked t (unchanged e P r same h) start rest
      where
        on_asked :
            (b : Bool) (t : IpfsResolver W H S B)
            → AllCached e P t.resolution_cache
            → ask e now rec r ≡ (ok b, t)
            → poll_asked e now rec rounds b t ≡ (ok m, r')
            → ((m ≡ empty) × (ask e now rec r ≡ (ok false, r'))) ⊎ P (get_id e.primitives rec) m
        on_asked true t v start l =
            inr (polled rounds now (get_id e.primitives rec) t r' m accepts v l)
        on_asked false t v start l =
            inl (sym (run-end l).0, start ∙ λ i. (ok false, (run-end l).1 i))

    obtained :
        (now : ℕ) (rec rc : Message) (rounds : List (Round W)) (r t : IpfsResolver W H S B)
        → ((x : Message) → IsHeardIn x rounds → Accepts e P x)
        → AllCached e P r.resolution_cache
        → cached_or_queried e now rec rounds (get_from_cache now (get_id e.primitives rec) r) r
          ≡ (ok rc, t)
        → ((rc ≡ empty) × (ask e now rec r ≡ (ok false, t))) ⊎ P (get_id e.primitives rec) rc
    unfolding cached_or_queried get_from_cache found_message
    obtained now rec rc rounds r t accepts h =
        on_cached (Cache.get now (get_id e.primitives rec) r.resolution_cache) refl
      where
        on_cached :
            (o : Option Message)
            → Cache.get now (get_id e.primitives rec) r.resolution_cache ≡ o
            → cached_or_queried e now rec rounds (found_message o) r ≡ (ok rc, t)
            → ((rc ≡ empty) × (ask e now rec r ≡ (ok false, t))) ⊎ P (get_id e.primitives rec) rc
        on_cached none q l = queried now rec rounds r t rc accepts h l
        on_cached (some m) q l =
            inr
              (from_cache now (get_id e.primitives rec) r rc h (ap found_message q ∙ λ i. (l i).0))

  -- When the cached resolutions are verified and `Resolve` of a well-formed name that is not
  -- managed returns a value, whatever happens while it polls, then either the value is empty and
  -- the request was not published, or the value stands in a message that refers to the request, has
  -- a signature that verifies, and was cached under the request before the call or read as a
  -- response from an event that came in during the polling.
  pub resolve-Answers :
      (now : ℕ) (name value : Bytes) (rec : Message) (rounds : List (Round W))
      (r r' : IpfsResolver W H S B)
      → AllVerified e r
      → get_query_name_request_from_name e.primitives name ≡ ok rec
      → is_managed now rec r ≡ false
      → resolve e now name rounds r ≡ (ok value, r')
      → ((value ≡ []) × (ask e now rec r ≡ (ok false, r')))
        ⊎ (m : Message) × Answers (get_id e.primitives rec) r rounds m
          × ((extract_query m).0 ≡ value)
  unfolding extract_query
  resolve-Answers now name value rec rounds r r' h parsed other g =
      let (rc, t, start, rest) =
        run-bind
          (cached_or_queried e now rec rounds (get_from_cache now (get_id e.primitives rec) r))
          (λ rc. lift (ok (extract_query rc).0)) r
          (sym (resolve-unmanaged now name rec rounds r parsed other) ∙ g) in
      to_value rc t (run-end rest) (
        obtained Source now rec rc rounds r t
          (λ x heard good. record { verified = good; refers = refl; source = inr heard })
          (λ k c found.
            let (good, refers) = h k c found in
            record { verified = good; refers = refers; source = inl (c, found, refl) })
          start)
    where
      Source : Bytes → Message → Type 0
      Source key m = Answers key r rounds m

      to_value :
          (rc : Message) (t : IpfsResolver W H S B)
          → ((extract_query rc).0 ≡ value) × (t ≡ r')
          → ((rc ≡ empty) × (ask e now rec r ≡ (ok false, t)))
            ⊎ Answers (get_id e.primitives rec) r rounds rc
          → ((value ≡ []) × (ask e now rec r ≡ (ok false, r')))
            ⊎ (m : Message) × Answers (get_id e.primitives rec) r rounds m
              × ((extract_query m).0 ≡ value)
      to_value rc t (q, same) (inl (d, asked)) =
          inl (sym q ∙ ap (λ m. (extract_query m).0) d, asked ∙ λ i. (ok false, same i))
      to_value rc t (q, same) (inr a) = inr (rc, a, q)
