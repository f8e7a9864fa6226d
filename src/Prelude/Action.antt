-- ===== src/Prelude/Action.antt =====
-- Methods that change a state and may fail. What was written before an error stays written, so the
-- state comes back beside every outcome.
use mathlib.Core.Path.{◌≡◌, refl, ◌∙◌}
use setinstone.Prelude.Outcome.{Outcome, ok, err, panic}

abbrev pub Action {ℓ} : Type ℓ → Type ℓ → Type ℓ
Action S A = S → Outcome A × S

module _ {ℓ} {S A : Type ℓ} where
  -- a value that only reads the state
  abbrev pub reads : (S → Outcome A) → Action S A
  reads f s = (f s, s)

  abbrev pub lift : Outcome A → Action S A
  lift r s = (r, s)

module _ {ℓ} {S A B : Type ℓ} where
  abbrev pub continue : Outcome A → (A → Action S B) → Action S B
  continue (ok a) f s = f a s
  continue (err e) f s = (err e, s)
  continue panic f s = (panic, s)

  infixl 10 ◌>>=◌ ◌>>◌
  unfoldable pub ◌>>=◌ : Action S A → (A → Action S B) → Action S B
  ◌>>=◌ m f s = let (r, s') = m s in continue r f s'

  abbrev pub ◌>>◌ : Action S A → Action S B → Action S B
  m >> n = m >>= λ _. n

-- What a successful run of two actions went through.
pub run-bind {ℓ} :
    {S A B : Type ℓ} (m : Action S A) (f : A → Action S B) (s : S) {b : B} {s' : S}
    → (m >>= f) s ≡ (ok b, s')
    → (a : A) × (t : S) × (m s ≡ (ok a, t)) × (f a t ≡ (ok b, s'))
unfolding ◌>>=◌
run-bind {S} {A} {B} m f s {b} {s'} h = split_run (m s).0 (m s).1 refl h
  where
    split_run :
        (o : Outcome A) (t : S)
        → m s ≡ (o, t)
        → continue o f t ≡ (ok b, s')
        → (a : A) × (u : S) × (m s ≡ (ok a, u)) × (f a u ≡ (ok b, s'))
    split_run (ok a) t e g = (a, t, e, g)
    split_run (err c) t e g = cc
    split_run panic t e g = cc

-- The same where the first action only reads the state, or is a value.
pub run-reads {ℓ} :
    {S A B : Type ℓ} (g : S → Outcome A) (f : A → Action S B) (s : S) {b : B} {s' : S}
    → (reads g >>= f) s ≡ (ok b, s')
    → (a : A) × (g s ≡ ok a) × (f a s ≡ (ok b, s'))
unfolding ◌>>=◌
run-reads {S} {A} {B} g f s {b} {s'} h = split_read (g s) refl h
  where
    split_read :
        (o : Outcome A)
        → g s ≡ o
        → continue o f s ≡ (ok b, s')
        → (a : A) × (g s ≡ ok a) × (f a s ≡ (ok b, s'))
    split_read (ok a) e k = (a, e, k)
    split_read (err c) e k = cc
    split_read panic e k = cc

pub run-lift {ℓ} :
    {S A B : Type ℓ} (o : Outcome A) (f : A → Action S B) (s : S) {b : B} {s' : S}
    → (lift o >>= f) s ≡ (ok b, s')
    → (a : A) × (o ≡ ok a) × (f a s ≡ (ok b, s'))
run-lift o f s h = run-reads (λ _. o) f s h

-- The end of a block.
pub run-end {ℓ} : {S A : Type ℓ} {a b : A} {s t : S} → lift (ok a) s ≡ (ok b, t) → (a ≡ b) × (s ≡ t)
run-end {a} {b} h = (ok-injective (λ i. (h i).0), λ i. (h i).1)
  where
    ok-injective : ok a ≡ ok b → a ≡ b
    ok-injective e = cc e

-- An action that leaves a view of the state as it is.
abbrev pub Keeps {ℓ κ} : {S A : Type ℓ} {X : Type κ} → (S → X) → Action S A → Type (ℓ ⊔ κ)
Keeps {S} view m = (s : S) → view (m s).1 ≡ view s

module _ {ℓ κ} {S A B : Type ℓ} {X : Type κ} (view : S → X) where
  pub Keeps-continue :
      (o : Outcome A) (f : A → Action S B)
      → ((a : A) → Keeps view (f a))
      → Keeps view (continue o f)
  Keeps-continue (ok a) f k s = k a s
  Keeps-continue (err e) f k s = refl
  Keeps-continue panic f k s = refl

  pub Keeps-bind :
      (m : Action S A) (f : A → Action S B)
      → Keeps view m
      → ((a : A) → Keeps view (f a))
      → Keeps view (m >>= f)
  unfolding ◌>>=◌
  Keeps-bind m f h k s = Keeps-continue (m s).0 f k (m s).1 ∙ h s

-- An action that keeps a predicate of the state.
abbrev pub Preserves {ℓ κ} : {S A : Type ℓ} → (S → Type κ) → Action S A → Type (ℓ ⊔ κ)
Preserves {S} P m = (s : S) → P s → P (m s).1

module _ {ℓ κ} {S A B : Type ℓ} (P : S → Type κ) where
  pub Preserves-continue :
      (o : Outcome A) (f : A → Action S B)
      → ((a : A) → Preserves P (f a))
      → Preserves P (continue o f)
  Preserves-continue (ok a) f k s h = k a s h
  Preserves-continue (err e) f k s h = h
  Preserves-continue panic f k s h = h

  pub Preserves-bind :
      (m : Action S A) (f : A → Action S B)
      → Preserves P m
      → ((a : A) → Preserves P (f a))
      → Preserves P (m >>= f)
  unfolding ◌>>=◌
  Preserves-bind m f h k s p = Preserves-continue (m s).0 f k (m s).1 (h s p)
