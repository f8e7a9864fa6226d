-- ===== src/Resolver/Network/Newest.antt =====
-- resolver/ipfs_resolver.go: `handleResolution`, and the goroutine that would send the same answer.
use setinstone.Prelude.{
  ℕ, zero, suc, ◌≡◌, ◌≢◌, refl, sym, ap, ◌∙◌, Bool, true, false, none, some, Bytes, arith, bytes_eq,
  bytes_eq_iff, bytes_eq_refl, Bool-cases, inl, inr, if◌then◌else◌,
}
use setinstone.Prelude.Int.{ℤ, pos, negsuc}
use setinstone.Prelude.Assoc.{lookup, lookup-erase}
use setinstone.Prelude.Action.{◌>>=◌}
use setinstone.Prelude.Outcome.{Outcome, ok}
use setinstone.Message.{Message, extract_query, verify_signature}
use setinstone.Message.Json.{to_json}
use setinstone.Cache
use setinstone.Cache.{MemoryCache, expiry, is_past, get-add_with_ttl}
use setinstone.Resolver.Network.{Env, IpfsResolver, put_in_cache, remove_pending_query}
use setinstone.Resolver.Network.Answer.{
  handle_resolution, judged, cached, replaces, woken, can_send_resolution, can_send, sent, ended,
}

-- What is added has not expired yet.
pub is_past-expiry : (now : ℕ) (ttl : ℤ) → is_past (expiry now ttl) now ≡ false
unfolding is_past expiry
is_past-expiry now (pos zero) = refl
is_past-expiry now (pos (suc n)) = ground arith
is_past-expiry now (negsuc n) = refl

module _ {J W H S B : Type 0} (e : Env J W H S B) where
  pub get-put_in_cache :
      (now later : ℕ) (k : Bytes) (msg : Message) (r : IpfsResolver W H S B)
      → Cache.get later k (put_in_cache now msg r).resolution_cache ≡ (
          if bytes_eq (extract_query msg).1 k
          then (if is_past (expiry now r.resolution_cache.default_ttl) later
              then none
              else some msg)
          else Cache.get later k r.resolution_cache)
  unfolding put_in_cache Cache.add
  get-put_in_cache now later k msg r =
      get-add_with_ttl now later (extract_query msg).1 k msg r.resolution_cache.default_ttl
        r.resolution_cache

  pub cached-other :
      (now later : ℕ) (k : Bytes) (msg : Message) (r : IpfsResolver W H S B)
      → k ≢ (extract_query msg).1
      → Cache.get later k (cached e now msg r).resolution_cache
        ≡ Cache.get later k r.resolution_cache
  unfolding cached
  cached-other now later k msg r ne =
      on_test (replaces e (Cache.get now (extract_query msg).1 r.resolution_cache) msg)
    where
      on_test :
          (b : Bool)
          → Cache.get later k (if b then put_in_cache now msg r else r).resolution_cache
            ≡ Cache.get later k r.resolution_cache
      on_test true = elim (Bool-cases (bytes_eq (extract_query msg).1 k)) [
        | inl t ↦ absurd (ne (sym ((bytes_eq_iff (extract_query msg).1 k).0 t)))
        | inr f ↦ get-put_in_cache now later k msg r ∙ rw f refl
      ]
      on_test false = refl

  -- The state after a resolution whose signature verifies.
  pub handled :
      (now : ℕ) (msg : Message) (r : IpfsResolver W H S B)
      → verify_signature e.primitives msg ≡ ok tt
      → handle_resolution e now msg r ≡ (ok tt, remove_pending_query msg (cached e now msg r))
  unfolding handle_resolution judged
  handled now msg r good = rw good refl

  -- What comes in where nothing is cached is found until it expires.
  pub handled-later :
      (now later : ℕ) (msg : Message) (r : IpfsResolver W H S B)
      → verify_signature e.primitives msg ≡ ok tt
      → Cache.get now (extract_query msg).1 r.resolution_cache ≡ none
      → is_past (expiry now r.resolution_cache.default_ttl) later ≡ false
      → Cache.get later (extract_query msg).1 (handle_resolution e now msg r).1.resolution_cache
        ≡ some msg
  unfolding remove_pending_query cached replaces
  handled-later now later msg r good miss live =
      ap
        (λ (x : Outcome (Unit {0}) × IpfsResolver W H S B).
          Cache.get later (extract_query msg).1 x.1.resolution_cache)
        (handled now msg r good)
      ∙ rw miss (
          get-put_in_cache now later (extract_query msg).1 msg r
          ∙ rw (bytes_eq_refl (extract_query msg).1, live) refl)

  pub resources-handled :
      (now : ℕ) (msg : Message) (r : IpfsResolver W H S B)
      → verify_signature e.primitives msg ≡ ok tt
      → (handle_resolution e now msg r).1.resource_cache ≡ r.resource_cache
  unfolding remove_pending_query cached put_in_cache
  resources-handled now msg r good =
      ap (λ (x : Outcome (Unit {0}) × IpfsResolver W H S B). x.1.resource_cache)
        (handled now msg r good)
      ∙ on_test (replaces e (Cache.get now (extract_query msg).1 r.resolution_cache) msg)
    where
      on_test :
          (b : Bool) → (if b then put_in_cache now msg r else r).resource_cache ≡ r.resource_cache
      on_test true = refl
      on_test false = refl

  pending-handled :
      (now : ℕ) (msg : Message) (r : IpfsResolver W H S B)
      → verify_signature e.primitives msg ≡ ok tt
      → lookup (extract_query msg).1 (handle_resolution e now msg r).1.pending ≡ none
  unfolding remove_pending_query
  pending-handled now msg r good =
      ap
        (λ (x : Outcome (Unit {0}) × IpfsResolver W H S B).
          lookup (extract_query msg).1 x.1.pending)
        (handled now msg r good)
      ∙ lookup-erase (extract_query msg).1 (extract_query msg).1 (cached e now msg r).pending
      ∙ rw (bytes_eq_refl (extract_query msg).1) refl

  -- A goroutine whose query is not pending does nothing.
  silent :
      (now : ℕ) (msg : Message) (js : Bytes) (r : IpfsResolver W H S B)
      → to_json e.json msg ≡ ok js
      → lookup (extract_query msg).1 r.pending ≡ none
      → woken e now msg r ≡ (ok tt, r)
  unfolding woken can_send_resolution can_send sent ended ◌>>=◌
  silent now msg js r written gone = rw (written, gone) refl

  -- Once a verified answer to a query has come in, the goroutine that waits to send an own answer
  -- to it, which is encoded, sends nothing and changes nothing.
  pub woken-handle_resolution :
      (now later : ℕ) (answer own : Message) (js : Bytes) (r : IpfsResolver W H S B)
      → verify_signature e.primitives answer ≡ ok tt
      → (extract_query own).1 ≡ (extract_query answer).1
      → to_json e.json own ≡ ok js
      → woken e later own (handle_resolution e now answer r).1
        ≡ (ok tt, (handle_resolution e now answer r).1)
  woken-handle_resolution now later answer own js r good same written =
      silent later own js (handle_resolution e now answer r).1 written (
        ap (λ k. lookup k (handle_resolution e now answer r).1.pending) same
        ∙ pending-handled now answer r good)
