-- ===== src/Resolver/Backend.antt =====
-- resolver/backend.go and resolver/memory_backend.go: where a resolver keeps the values of names.
pub mod Bolt
pub mod Ipfs
use setinstone.Prelude.{
  ℕ, zero, ◌≡◌, ◌≢◌, refl, sym, ap, ◌∙◌, Bool, Option, none, some, arith, Bytes, bytes_eq,
  bytes_eq_iff, bytes_eq_refl, if◌then◌else◌,
}
use setinstone.Prelude.Int.{ℤ, pos}
use setinstone.Prelude.Action.{Action}
use setinstone.Prelude.Outcome.{Outcome, ok, err, name_not_found}
use setinstone.Primitives.{Primitives}
use setinstone.Message.{Message}
use setinstone.Resolver.{get_query_name_request_from_name}
use setinstone.Cache
use setinstone.Cache.{MemoryCache, new_memory_cache, expiry, is_past, get-add_with_ttl}

-- The interface Backend, on a state `B`. Each method takes the time of its call.
pub record Backend (B : Type 0) : Type 0 where
  pub add : ℕ → Bytes → Bytes → Action B (Unit {0})
  pub resolve : ℕ → Bytes → B → Outcome Bytes

-- What a resolver relies on, from a state that is `IsReady`.
pub record BackendLaws (p : Primitives) {B : Type 0} (k : Backend B) (IsReady : B → Type 0)
    : Type 0 where
  pub add_ready :
      (now : ℕ) (name value : Bytes) (b b' : B)
      → IsReady b
      → k.add now name value b ≡ (ok tt, b')
      → IsReady b'
  pub resolve_added :
      (now later : ℕ) (name value : Bytes) (rec : Message) (b b' : B)
      → IsReady b
      → get_query_name_request_from_name p name ≡ ok rec
      → k.add now name value b ≡ (ok tt, b')
      → k.resolve later name b' ≡ ok value
  pub resolve_other :
      (now later : ℕ) (name other value : Bytes) (b b' : B)
      → IsReady b
      → other ≢ name
      → k.add now name value b ≡ (ok tt, b')
      → k.resolve later other b' ≡ k.resolve later other b

found_value : Option Bytes → Outcome Bytes
found_value none = err name_not_found
found_value (some value) = ok value

unfoldable pub new_memory_backend : MemoryCache Bytes
unfolding new_memory_cache
new_memory_backend = new_memory_cache (pos 0)

unfoldable pub memory_backend : Backend (MemoryCache Bytes)
unfolding found_value
memory_backend = record {
  add = λ now name value m. (ok tt, Cache.add now name value m);
  resolve = λ now name m. found_value (Cache.get now name m);
}

-- Values never expire.
abbrev pub IsLasting : MemoryCache Bytes → Type 0
IsLasting m = m.default_ttl ≡ pos zero

added :
    (now later : ℕ) (name k value : Bytes) (m : MemoryCache Bytes)
    → IsLasting m
    → Cache.get later k (Cache.add now name value m)
      ≡ (if bytes_eq name k then some value else Cache.get later k m)
unfolding Cache.add expiry is_past
added now later name k value m lasting =
    ap (λ t. Cache.get later k (Cache.add_with_ttl now name value t m)) lasting
    ∙ get-add_with_ttl now later name k value (pos zero) m
    ∙ refl

-- x
pub memory_backend-BackendLaws : (p : Primitives) → BackendLaws p memory_backend IsLasting
unfolding memory_backend Cache.add Cache.add_with_ttl
memory_backend-BackendLaws p = record {
  add_ready = λ now name value b b' lasting e.
      ap (λ (x : Outcome (Unit {0}) × MemoryCache Bytes). x.1.default_ttl) (sym e) ∙ lasting;
  resolve_added = λ now later name value rec b b' lasting parsed e.
      ap (λ (x : Outcome (Unit {0}) × MemoryCache Bytes). found_value (Cache.get later name x.1))
        (sym e)
      ∙ ap found_value (added now later name name value b lasting)
      ∙ rw (bytes_eq_refl name) refl;
  resolve_other = λ now later name other value b b' lasting ne e.
      ap (λ (x : Outcome (Unit {0}) × MemoryCache Bytes). found_value (Cache.get later other x.1))
        (sym e)
      ∙ ap found_value (added now later name other value b lasting)
      ∙ ground (arith, bytes_eq_iff name other);
}
