-- ===== src/BigInt/Digits.antt =====
-- Digits and values in any base, for math/big.
use native.Mathlib.Nat.{
  div-add-mod, div-lt_self, mod-lt, mod-eq_of_lt, add-mul-mod_self_left, div-eq_of_lt,
  add-mul-div_left, mul-pos, div-lt_iff_lt-mul, pow-suc, pow-zero,
}
use mathlib.Core.List.{concat-ne-nil}
use native.Mathlib.Decide.{ℕ_discrete}
use setinstone.Prelude.{
  ℕ, zero, suc, ◌+◌, ◌*◌, ◌/◌, ◌%◌, ◌≤◌, ◌<◌, [], ◌∷◌, ◌++◌, ◌≡◌, ◌≢◌, refl, sym, ap, ◌∙◌, reverse,
  reverse-append, arith, Bytes, replicate, length, ◌^◌, subst, All, All-append,
}
use setinstone.BigInt.{value_from, le_digits}

abbrev pub le_value : ℕ → Bytes → ℕ
le_value b [] = 0
le_value b (d ∷ ds) = d + b * le_value b ds

-- The digits of a number: each below the base, and the top one not zero.
abbrev pub IsCanonical : ℕ → Bytes → Type 0
IsCanonical b [] = Unit
IsCanonical b (d ∷ ds) = (d < b) × (ds ≡ [] → d ≢ 0) × IsCanonical b ds

value_from-append :
    (b n d : ℕ) (xs : Bytes) → value_from b n (xs ++ d ∷ []) ≡ value_from b n xs * b + d
unfolding value_from
value_from-append b n d [] = refl
value_from-append b n d (x ∷ xs) = value_from-append b (n * b + x) d xs

pub value_from-reverse : (b : ℕ) (ds : Bytes) → value_from b 0 (reverse ds) ≡ le_value b ds
value_from-reverse b [] = unfold value_from in refl
value_from-reverse b (d ∷ ds) =
    ap (value_from b 0) (reverse-append (d ∷ []) ds)
    ∙ value_from-append b 0 d (reverse ds)
    ∙ omega (arith, ap (λ (t : ℕ). t * b) (value_from-reverse b ds))

pub value_from-zeros :
    (b z : ℕ) (xs : Bytes) → value_from b 0 (replicate z 0 ++ xs) ≡ value_from b 0 xs
unfolding value_from
value_from-zeros b zero xs = refl
value_from-zeros b (suc z) xs =
    ap (λ (t : ℕ). value_from b t (replicate z 0 ++ xs)) (omega arith) ∙ value_from-zeros b z xs

le_digits_zero : (b f : ℕ) → le_digits b f 0 ≡ []
unfolding le_digits
le_digits_zero b zero = refl
le_digits_zero b (suc f) = refl

-- One round of the division loop.
pub le_digits_step : (b f x : ℕ) → x ≢ 0 → le_digits b (suc f) x ≡ (x % b) ∷ le_digits b f (x / b)
unfolding le_digits
le_digits_step b f x h = ground arith

module _ (b : ℕ) (two : 2 ≤ b) where
  quotient-le : (x f : ℕ) → x ≢ 0 → x ≤ suc f → x / b ≤ f
  quotient-le x f h le = omega (arith, div-lt_self {n = x} {k = b} (omega arith) (omega arith))

  pub le_value-le_digits : (f x : ℕ) → x ≤ f → le_value b (le_digits b f x) ≡ x
  le_value-le_digits zero x h = unfold le_digits in omega arith
  le_value-le_digits (suc f) x h = elim (ℕ_discrete x 0) [
    | yes e ↦ rw (e, le_digits_zero b (suc f))
    | no e ↦ rw (le_digits_step b f x e) (
        omega (
          arith,
          div-add-mod x b,
          ap (λ (t : ℕ). b * t) (le_value-le_digits f (x / b) (quotient-le x f e h)),
        ))
  ]

  le_digits-ne-nil : (f x : ℕ) → x ≢ 0 → x ≤ f → le_digits b f x ≢ []
  le_digits-ne-nil zero x h le = absurd (omega arith)
  le_digits-ne-nil (suc f) x h le = rw (le_digits_step b f x h) (λ p. cc p)

  zero_of_parts : (x : ℕ) → x / b ≡ 0 → x % b ≡ 0 → x ≡ 0
  zero_of_parts x q r = sym (div-add-mod x b) ∙ rw (q, r) (omega arith)

  top_ne-zero : (f x : ℕ) → x ≢ 0 → x / b ≤ f → le_digits b f (x / b) ≡ [] → x % b ≢ 0
  top_ne-zero f x h le e z = elim (ℕ_discrete (x / b) 0) [
    | yes q ↦ h (zero_of_parts x q z)
    | no q ↦ le_digits-ne-nil f (x / b) q le e
  ]

  pub le_digits-IsCanonical : (f x : ℕ) → x ≤ f → IsCanonical b (le_digits b f x)
  le_digits-IsCanonical zero x h = unfold le_digits in tt
  le_digits-IsCanonical (suc f) x h = elim (ℕ_discrete x 0) [
    | yes e ↦ rw (e, le_digits_zero b (suc f)) tt
    | no e ↦
        let le : x / b ≤ f = quotient-le x f e h in
        rw (le_digits_step b f x e)
          (mod-lt x (omega arith), top_ne-zero f x e le, le_digits-IsCanonical f (x / b) le)
  ]

  le_value-pos : (d : ℕ) (ds : Bytes) → IsCanonical b (d ∷ ds) → 0 < le_value b (d ∷ ds)
  le_value-pos d [] (lt, top, _) = omega (arith, top refl)
  le_value-pos d (c ∷ ds) (lt, top, rest) =
      omega
        (arith, mul-pos {m = b} {n = le_value b (c ∷ ds)} (omega arith) (le_value-pos c ds rest))

  tail-le : (d f v : ℕ) → 0 < d + b * v → d + b * v ≤ suc f → v ≤ f
  tail-le d f v pos h = grind arith

  pub le_digits-le_value :
      (f : ℕ) (ds : Bytes)
      → IsCanonical b ds
      → le_value b ds ≤ f
      → le_digits b f (le_value b ds) ≡ ds
  le_digits-le_value f [] c le = le_digits_zero b f
  le_digits-le_value zero (d ∷ ds) c le = absurd (omega (arith, le_value-pos d ds c))
  le_digits-le_value (suc f) (d ∷ ds) c le =
      let v : ℕ = le_value b ds in
      let digit : (d + b * v) % b ≡ d = add-mul-mod_self_left d b v ∙ mod-eq_of_lt c.0 in
      let rest : (d + b * v) / b ≡ v =
        add-mul-div_left d v {y = b} (omega arith) ∙ rw (div-eq_of_lt c.0) (omega arith) in
      le_digits_step b f (d + b * v) (omega (arith, le_value-pos d ds c))
      ∙ rw (digit, rest)
          (ap (λ r. d ∷ r) (le_digits-le_value f ds c.2 (tail-le d f v (le_value-pos d ds c) le)))

  quotient-lt_pow : (x n : ℕ) → x < b ^ suc n → x / b < b ^ n
  quotient-lt_pow x n h = (div-lt_iff_lt-mul (omega arith)).1 (rw pow-suc at h)

  -- A number below the n-th power of the base has at most n digits.
  pub length-le_digits : (f x n : ℕ) → x < b ^ n → length (le_digits b f x) ≤ n
  length-le_digits zero x n h = unfold le_digits in omega arith
  length-le_digits (suc f) x zero h =
      let e : x ≡ 0 = omega (arith, pow-zero b) in rw (e, le_digits_zero b (suc f)) (omega arith)
  length-le_digits (suc f) x (suc n) h = elim (ℕ_discrete x 0) [
    | yes e ↦ rw (e, le_digits_zero b (suc f)) (omega arith)
    | no e ↦
        rw (le_digits_step b f x e)
          (omega (arith, length-le_digits f (x / b) n (quotient-lt_pow x n h)))
  ]

-- The canonical digits are those below the base that do not begin, written forwards, with a zero.
module _ (b : ℕ) where
  IsCanonical-snoc :
      (xs : Bytes) (c : ℕ) → All (λ d. d < b) xs → c < b → c ≢ 0 → IsCanonical b (xs ++ c ∷ [])
  IsCanonical-snoc [] c h lt ne = (lt, λ _. ne, tt)
  IsCanonical-snoc (x ∷ xs) c h lt ne =
      (h.0, λ e. absurd (concat-ne-nil c xs e), IsCanonical-snoc xs c h.1 lt ne)

  pub All-reverse : (xs : Bytes) → All (λ d. d < b) xs → All (λ d. d < b) (reverse xs)
  All-reverse [] h = tt
  All-reverse (x ∷ xs) h =
      subst (All (λ d. d < b)) (sym (reverse-append (x ∷ []) xs))
        (All-append (λ d. d < b) (reverse xs) (x ∷ []) (All-reverse xs h.1) (h.0, tt))

  pub IsCanonical-reverse :
      (c : ℕ) (rest : Bytes)
      → All (λ d. d < b) (c ∷ rest)
      → c ≢ 0
      → IsCanonical b (reverse (c ∷ rest))
  IsCanonical-reverse c rest h ne =
      subst (IsCanonical b) (sym (reverse-append (c ∷ []) rest))
        (IsCanonical-snoc (reverse rest) c (All-reverse rest h.1) h.0 ne)

  pub IsCanonical-All : (ds : Bytes) → IsCanonical b ds → All (λ d. d < b) ds
  IsCanonical-All [] c = tt
  IsCanonical-All (d ∷ ds) c = (c.0, IsCanonical-All ds c.2)

  -- The top digit stands last, and first in the reversed list.
  pub IsCanonical-top :
      (d : ℕ) (ds : Bytes)
      → IsCanonical b (d ∷ ds)
      → (c : ℕ) × (rest : Bytes) × (reverse (d ∷ ds) ≡ c ∷ rest) × (c ≢ 0)
  IsCanonical-top d [] h = (d, [], refl, h.1 refl)
  IsCanonical-top d (e ∷ ds) h =
      let (c, rest, eq, ne) = IsCanonical-top e ds h.2 in
      (c, rest ++ d ∷ [], reverse-append (d ∷ []) (e ∷ ds) ∙ ap (λ r. r ++ d ∷ []) eq, ne)

-- A value of zero has a top digit of zero.
pub le_value_top : (b : ℕ) → 0 < b → (ds : Bytes) (c : ℕ) → le_value b (ds ++ c ∷ []) ≡ 0 → c ≡ 0
le_value_top b pos [] c h = omega arith
le_value_top b pos (d ∷ ds) c h = le_value_top b pos ds c (grind arith)
