-- ===== src/Cache.antt =====
-- cache/cache.go and cache/memory.go: values under keys, each with the time at which it expires. The
-- clock is an argument, in nanoseconds. No method returns an error.
use setinstone.Prelude.{
  ℕ, zero, suc, ◌+◌, ◌≡◌, ap, ◌∙◌, Bool, false, Option, none, some, [], arith, Bytes, bytes_eq, ltb,
  if◌then◌else◌,
}
use setinstone.Prelude.Int.{ℤ, pos, negsuc}
use setinstone.Prelude.Assoc.{Assoc, lookup, insert, erase, lookup-insert, lookup-erase}

-- The zero time, `none`, stands for no expiry.
pub record CacheRecord {ℓ} (V : Type ℓ) : Type ℓ where
  pub expires_at : Option ℕ
  pub value : V

pub record MemoryCache {ℓ} (V : Type ℓ) : Type ℓ where
  pub entries : Assoc (CacheRecord V)
  pub default_ttl : ℤ

unfoldable pub new_memory_cache {ℓ} : {V : Type ℓ} → ℤ → MemoryCache V
new_memory_cache ttl = record { entries = []; default_ttl = ttl }

-- The time at which what is added now expires: a time to live that is not positive is none.
unfoldable pub expiry : ℕ → ℤ → Option ℕ
expiry now (pos zero) = none
expiry now (pos (suc ttl)) = some (now + suc ttl)
expiry now (negsuc ttl) = none

unfoldable pub is_past : Option ℕ → ℕ → Bool
is_past none now = false
is_past (some t) now = ltb t now

module _ {ℓ} {V : Type ℓ} where
  unfoldable pub is_expired : CacheRecord V → ℕ → Bool
  unfolding is_past
  is_expired r now = is_past r.expires_at now

  unfoldable pub add_with_ttl : ℕ → Bytes → V → ℤ → MemoryCache V → MemoryCache V
  unfolding expiry
  add_with_ttl now key value ttl m = record m {
    entries = insert key (record { expires_at = expiry now ttl; value = value }) m.entries;
  }

  unfoldable pub add : ℕ → Bytes → V → MemoryCache V → MemoryCache V
  add now key value m = add_with_ttl now key value m.default_ttl m

  unfoldable pub live : ℕ → Option (CacheRecord V) → Option V
  live now none = none
  live now (some r) = if is_expired r now then none else some r.value

  -- `none` is a value that is not found.
  unfoldable pub get : ℕ → Bytes → MemoryCache V → Option V
  get now key m = live now (lookup key m.entries)

  unfoldable pub delete : Bytes → MemoryCache V → MemoryCache V
  delete key m = record m { entries = erase key m.entries }

  -- What `add_with_ttl` leaves is found under its key up to its expiry and not after it, and nothing
  -- else changes.
  pub get-add_with_ttl :
      (now later : ℕ) (key k : Bytes) (value : V) (ttl : ℤ) (m : MemoryCache V)
      → get later k (add_with_ttl now key value ttl m) ≡ (
          if bytes_eq key k
          then (if is_past (expiry now ttl) later then none else some value)
          else get later k m)
  unfolding get add_with_ttl live is_expired
  get-add_with_ttl now later key k value ttl m =
      ap (live later)
        (lookup-insert key k (record { expires_at = expiry now ttl; value = value }) m.entries)
      ∙ ground arith

  pub get-delete :
      (later : ℕ) (key k : Bytes) (m : MemoryCache V)
      → get later k (delete key m) ≡ (if bytes_eq key k then none else get later k m)
  unfolding get delete live
  get-delete later key k m = ap (live later) (lookup-erase key k m.entries) ∙ ground arith
