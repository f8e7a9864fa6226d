-- ===== src/Resolver/Network/Sources.antt =====
-- resolver/ipfs_resolver.go: where the messages in the cache of resolutions come from.
use setinstone.Prelude.{
  ℕ, ◌≡◌, refl, sym, ap, ◌∙◌, subst, Bool, true, false, [], ◌∷◌, Option, none, some, List, Bytes,
  bytes_eq, bytes_eq_iff, Bool-cases, inl, inr, get_elem?, if◌then◌else◌,
}
use setinstone.Prelude.Assoc.{lookup, lookup-insert}
use setinstone.Prelude.Action.{continue}
use setinstone.Prelude.Outcome.{Outcome, ok, err, panic}
use setinstone.Message.{
  Message, extract_query, verify_signature, query_name_request, query_name_response,
}
use setinstone.Message.Json.{from_json, empty, query_type}
use setinstone.Cache
use setinstone.Cache.{CacheRecord, MemoryCache, expiry}
use setinstone.Resolver.Network.{Env, IpfsResolver, put_in_cache, remove_pending_query}
use setinstone.Resolver.Network.Answer.{
  dispatch, handle_event, handle_resolution, cached, replaces, judged, taken,
}
use setinstone.Resolver.Network.Query.{
  Input, received, wakes, adds, manages, subscribes, removes, asks, turns, step, run, woken_at,
  without_position,
}
use setinstone.Resolver.Network.Frame.{
  resolutions, ended-state, subscribe-Keeps, manage-Keeps, remove-Keeps, add-Keeps, ask-Keeps,
  woken-Keeps, handle_query-Keeps,
}

module _ {J W H S B : Type 0} (e : Env J W H S B) where
  -- The input is an event whose body is read as the message, a response.
  pub data Brings (m : Message) : Input W → Type 0 where
    brings :
        (now : ℕ) (timestamp : Bytes) (seed : ℕ) (body : Bytes)
        → from_json e.json empty body (some query_type) ≡ ok m
        → m.message_type ≡ query_name_response
        → Brings m (received now timestamp seed body)

  -- One of the inputs, and one of those of the rounds, brings the message.
  pub data IsHeard (m : Message) : List (Input W) → Type 0 where
    first : (i : Input W) (inputs : List (Input W)) → Brings m i → IsHeard m (i ∷ inputs)
    later : (i : Input W) (inputs : List (Input W)) → IsHeard m inputs → IsHeard m (i ∷ inputs)

-- A predicate of every cached resolution and its key.
module _ {J W H S B : Type 0} (e : Env J W H S B) (P : Bytes → Message → Type 0) where
  abbrev pub AllCached : MemoryCache Message → Type 0
  AllCached c = (k : Bytes) (m : CacheRecord Message) → lookup k c.entries ≡ some m → P k m.value

  -- It holds of a message whose signature verifies.
  abbrev pub Accepts : Message → Type 0
  Accepts m = verify_signature e.primitives m ≡ ok tt → P (extract_query m).1 m

  put_in_cache-AllCached :
      (now : ℕ) (msg : Message) (r : IpfsResolver W H S B)
      → P (extract_query msg).1 msg
      → AllCached r.resolution_cache
      → AllCached (put_in_cache now msg r).resolution_cache
  unfolding put_in_cache Cache.add Cache.add_with_ttl
  put_in_cache-AllCached now msg r good h k m found =
      let kept : CacheRecord Message = record {
        expires_at = expiry now r.resolution_cache.default_ttl;
        value = msg;
      } in
      let read =
        sym (lookup-insert (extract_query msg).1 k kept r.resolution_cache.entries) ∙ found in
      elim (Bool-cases (bytes_eq (extract_query msg).1 k)) [
        | inl t ↦
            let same : kept ≡ m = some-injective (sym (rw t refl) ∙ read) in
            subst (λ x. P k x.value) same
              (subst (λ x. P x msg) ((bytes_eq_iff (extract_query msg).1 k).0 t) good)
        | inr f ↦ h k m (sym (rw f refl) ∙ read)
      ]
    where
      some-injective : {x y : CacheRecord Message} → some x ≡ some y → x ≡ y
      some-injective q = cc q

  pub unchanged :
      (r : IpfsResolver W H S B) {c : MemoryCache Message}
      → c ≡ resolutions e r
      → AllCached r.resolution_cache
      → AllCached c
  unchanged r same h = subst AllCached (sym same) h

  cached-AllCached :
      (now : ℕ) (msg : Message) (r : IpfsResolver W H S B)
      → P (extract_query msg).1 msg
      → AllCached r.resolution_cache
      → AllCached (cached e now msg r).resolution_cache
  unfolding cached
  cached-AllCached now msg r good h =
      on_test (replaces e (Cache.get now (extract_query msg).1 r.resolution_cache) msg)
    where
      on_test : (b : Bool) → AllCached (if b then put_in_cache now msg r else r).resolution_cache
      on_test true = put_in_cache-AllCached now msg r good h
      on_test false = h

  pub handle_resolution-AllCached :
      (now : ℕ) (msg : Message) (r : IpfsResolver W H S B)
      → Accepts msg
      → AllCached r.resolution_cache
      → AllCached (handle_resolution e now msg r).1.resolution_cache
  unfolding handle_resolution judged remove_pending_query
  handle_resolution-AllCached now msg r accepts h =
      on_verified (verify_signature e.primitives msg) refl
    where
      on_verified :
          (o : Outcome (Unit {0}))
          → verify_signature e.primitives msg ≡ o
          → AllCached (judged e now msg o r).1.resolution_cache
      on_verified (ok tt) q = cached-AllCached now msg r (accepts q) h
      on_verified (err c) q = h
      on_verified panic q = h

  dispatch-AllCached :
      (now : ℕ) (timestamp : Bytes) (seed : ℕ) (rec : Message) (r : IpfsResolver W H S B)
      → (rec.message_type ≡ query_name_response → Accepts rec)
      → AllCached r.resolution_cache
      → AllCached (dispatch e now timestamp seed rec r).1.resolution_cache
  unfolding dispatch
  dispatch-AllCached now timestamp seed rec r accepts h =
      elim (Bool-cases (bytes_eq rec.message_type query_name_request)) [
        | inl t ↦ rw t (unchanged r (handle_query-Keeps e now timestamp seed rec r) h)
        | inr f ↦ elim (Bool-cases (bytes_eq rec.message_type query_name_response)) [
          | inl t ↦
              rw (f, t)
                (handle_resolution-AllCached now rec r
                  (accepts ((bytes_eq_iff rec.message_type query_name_response).0 t)) h)
          | inr g ↦ rw (f, g) h
        ]
      ]

  handle_event-AllCached :
      (now : ℕ) (timestamp : Bytes) (seed : ℕ) (body : Bytes) (r : IpfsResolver W H S B)
      → ((m : Message) → Brings e m (received now timestamp seed body) → Accepts m)
      → AllCached r.resolution_cache
      → AllCached (handle_event e now timestamp seed body r).1.resolution_cache
  unfolding handle_event taken
  handle_event-AllCached now timestamp seed body r accepts h =
      on_read (from_json e.json empty body (some query_type)) refl
    where
      on_read :
          (o : Outcome Message)
          → from_json e.json empty body (some query_type) ≡ o
          → AllCached (taken e now timestamp seed o r).1.resolution_cache
      on_read (ok rec) q =
          dispatch-AllCached now timestamp seed rec r
            (λ t. accepts rec (brings now timestamp seed body q t)) h
      on_read (err c) q = h
      on_read panic q = h

  -- Every step keeps the predicate, where it holds of what the step brings.
  pub step-AllCached :
      (i : Input W) (r : IpfsResolver W H S B)
      → ((m : Message) → Brings e m i → Accepts m)
      → AllCached r.resolution_cache
      → AllCached (step e i r).1.resolution_cache
  unfolding step woken_at
  step-AllCached (received now timestamp seed body) r accepts h =
      handle_event-AllCached now timestamp seed body r accepts h
  step-AllCached (wakes now n) r accepts h = on_found (get_elem? r.sending n)
    where
      on_found : (o : Option Message) → AllCached (woken_at e now n o r).1.resolution_cache
      on_found none = h
      on_found (some msg) =
          unchanged r (woken-Keeps e now msg (record r { sending = without_position n r.sending }))
            h
  step-AllCached (adds now name value) r accepts h =
      unchanged r (ap (resolutions e) (ended-state e _) ∙ add-Keeps e now name value r) h
  step-AllCached (manages now addr) r accepts h =
      unchanged r (ap (resolutions e) (ended-state e _) ∙ manage-Keeps e now addr r) h
  step-AllCached (subscribes now addr) r accepts h =
      unchanged r (ap (resolutions e) (ended-state e _) ∙ subscribe-Keeps e now addr r) h
  step-AllCached (removes now addr) r accepts h = unchanged r (remove-Keeps e now addr r) h
  step-AllCached (asks now rec) r accepts h =
      unchanged r (ap (resolutions e) (ended-state e _) ∙ ask-Keeps e now rec r) h
  step-AllCached (turns w) r accepts h = h

  pub run-AllCached :
      (inputs : List (Input W)) (r : IpfsResolver W H S B)
      → ((m : Message) → IsHeard e m inputs → Accepts m)
      → AllCached r.resolution_cache
      → AllCached (run e inputs r).1.resolution_cache
  unfolding run
  run-AllCached [] r accepts h = h
  run-AllCached (i ∷ inputs) r accepts h =
      on_step (step e i r).0 (step e i r).1
        (step-AllCached i r (λ m b. accepts m (first i inputs b)) h)
        (λ t. run-AllCached inputs t (λ m b. accepts m (later i inputs b)))
    where
      on_step :
          (o : Outcome (Unit {0})) (s : IpfsResolver W H S B)
          → AllCached s.resolution_cache
          → ((t : IpfsResolver W H S B)
              → AllCached t.resolution_cache
              → AllCached (run e inputs t).1.resolution_cache)
          → AllCached (continue o (λ _. run e inputs) s).1.resolution_cache
      on_step (ok _) s g k = k s g
      on_step (err c) s g k = g
      on_step panic s g k = g
