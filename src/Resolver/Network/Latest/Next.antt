-- ===== src/Resolver/Network/Latest/Next.antt =====
-- resolver/ipfs_resolver.go: what one resolution does to the one that is cached.
use setinstone.Prelude.{
  ℕ, ◌≡◌, ◌≢◌, refl, sym, ap, ◌∙◌, subst, Bool, true, false, Option, none, some, ◌⊎◌, Bytes, arith,
  inl, inr, if◌then◌else◌, ltb,
}
use setinstone.Message.{Message, older_times}
use setinstone.Resolver.Network.{Env}
use setinstone.Resolver.Network.Answer.{replaces}
use setinstone.Resolver.Network.Latest.{Arrival, Counts, HasTime, AtLeast, IsTimed}

some-injective : {x y : Message} → some x ≡ some y → x ≡ y
some-injective q = cc q

none-some : {x : Message} → none ≢ some x
none-some q = cc q

module _ {J W H S B : Type 0} (e : Env J W H S B) (k : Bytes) where
  pub record Next (a : Arrival) (o o' : Option Message) : Type 0 where
    pub timed : IsTimed e o'
    pub source : (o' ≡ o) ⊎ ((o' ≡ some a.message) × Counts e k a.message)
    pub kept : (m : Message) (t : ℕ) → o ≡ some m → HasTime e m t → AtLeast e t o'
    pub newest : Counts e k a.message → (u : ℕ) × HasTime e a.message u × AtLeast e u o'

  pub AtLeast-self :
      (m : Message) (t : ℕ) (o : Option Message) → o ≡ some m → HasTime e m t → AtLeast e t o
  AtLeast-self m t o q h = (m, t, q, h, omega arith)

  -- A resolution that does not count.
  pub passed :
      (a : Arrival) (o : Option Message)
      → IsTimed e o
      → (Counts e k a.message → (u : ℕ) × HasTime e a.message u × AtLeast e u o)
      → Next a o o
  passed a o timed not_newer = record {
    timed = timed;
    source = inl refl;
    kept = λ m t q h. AtLeast-self m t o q h;
    newest = not_newer;
  }

  -- Where nothing is cached.
  taken_first :
      (a : Arrival) (t : ℕ)
      → Counts e k a.message
      → HasTime e a.message t
      → Next a none (some a.message)
  taken_first a t counts time = record {
    timed = (t, time);
    source = inr (refl, counts);
    kept = λ m u q h. absurd (none-some q);
    newest = λ _. (t, time, AtLeast-self a.message t (some a.message) refl time);
  }

  -- Where the message is cached that is older.
  taken_newer :
      (a : Arrival) (old : Message) (t u : ℕ)
      → Counts e k a.message
      → HasTime e a.message t
      → HasTime e old u
      → ltb u t ≡ true
      → Next a (some old) (some a.message)
  taken_newer a old t u counts time old_time lt = record {
    timed = (t, time);
    source = inr (refl, counts);
    kept = λ m v q h.
        let same : u ≡ v = time_unique (
          sym old_time
          ∙ ap (λ (x : Message). e.primitives.parse_time x.timestamp) (some-injective q)
          ∙ h) in
        (a.message, t, refl, time, ground (arith, lt, same));
    newest = λ _. (t, time, AtLeast-self a.message t (some a.message) refl time);
  }
    where
      time_unique : {x y : ℕ} → some x ≡ some y → x ≡ y
      time_unique q = cc q

  -- What is cached is not older.
  left_newer :
      (a : Arrival) (old : Message) (t u : ℕ)
      → HasTime e a.message t
      → HasTime e old u
      → ltb u t ≡ false
      → Next a (some old) (some old)
  left_newer a old t u time old_time nlt =
      passed a (some old) (u, old_time)
        (λ _. (t, time, (old, u, refl, old_time, ground (arith, nlt))))

  pub chosen :
      (a : Arrival) (o : Option Message) (t : ℕ)
      → IsTimed e o
      → Counts e k a.message
      → HasTime e a.message t
      → Next a o (if replaces e o a.message then some a.message else o)
  unfolding replaces
  chosen a none t timed counts time = taken_first a t counts time
  chosen a (some old) t (u, old_time) counts time =
      subst (λ b. Next a (some old) (if b then some a.message else some old))
        (sym (older_times e.primitives old a.message u t old_time time)) (on_test (ltb u t) refl)
    where
      on_test :
          (b : Bool) → ltb u t ≡ b → Next a (some old) (if b then some a.message else some old)
      on_test true q = taken_newer a old t u counts time old_time q
      on_test false q = left_newer a old t u time old_time q
