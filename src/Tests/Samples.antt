-- ===== src/Tests/Samples.antt =====
-- Primitives that compute, in place of the cryptographic functions, and a key.
use setinstone.Prelude.{
  ℕ, zero, suc, ◌+◌, ◌%◌, ◌^◌, ◌<◌, ◌≡◌, refl, sym, ap, ◌∙◌, subst, [], ◌∷◌, ◌&&◌, ◌==◌, ==_iff,
  none, some, arith, Bytes, All, length, replicate, length-replicate,
}
use setinstone.Prelude.Outcome.{ok}
use setinstone.Primitives.{EcdsaKey, Primitives, PrimitivesLaws}

unfoldable total : Bytes → ℕ
total [] = 0
total (c ∷ s) = c + total s

-- One byte that depends on the input, and ones.
unfoldable digest : ℕ → Bytes → Bytes
unfolding total
digest n s = total s % 256 ∷ replicate n 1

unfoldable pub toy : Primitives
unfolding digest
toy = record {
  sha256 = digest 31;
  ripemd160 = digest 19;
  ecdsa_sign = λ seed k h. ok (k.x % 7, total h % 256);
  ecdsa_verify = λ x y h r s. (r == x % 7) && (s == total h % 256);
  is_pair = λ k. k.secret == k.x;
  parse_time = λ s. elim s [ [] ↦ none | c ∷ t ↦ some c ];
}

ones-All : (n : ℕ) → All (λ c. c < 256) (replicate n 1)
ones-All zero = tt
ones-All (suc n) = (omega arith, ones-All n)

digest-All : (n : ℕ) (s : Bytes) → All (λ c. c < 256) (digest n s)
unfolding digest
digest-All n s = (omega arith, ones-All n)

length-digest : (n : ℕ) (s : Bytes) → length (digest n s) ≡ suc n
unfolding digest
length-digest n s = omega (arith, length-replicate {A = ℕ} n 1)

pub toy-laws : PrimitivesLaws toy
unfolding toy
toy-laws = record {
  sha256_length = length-digest 31;
  sha256_bytes = digest-All 31;
  ripemd160_length = length-digest 19;
  ripemd160_bytes = digest-All 19;
  sign_bounds = λ seed k h r s e.
      let signed : ℕ × ℕ = (k.x % 7, total h % 256) in
      let same : signed ≡ (r, s) = cc e in
      let low : k.x % 7 < 7 = omega arith in
      let byte : total h % 256 < 256 = omega arith in
      (
        subst (λ n. n < 256 ^ 32) (λ i. (same i).0) (omega arith),
        subst (λ n. n < 256 ^ 32) (λ i. (same i).1) (omega arith),
      );
  sign_verifies = λ seed k h r s pair e.
      let signed : ℕ × ℕ = (k.x % 7, total h % 256) in
      let same : signed ≡ (r, s) = cc e in
      ap (λ t. (t.0 == k.x % 7) && (t.1 == total h % 256)) (sym same)
      ∙ rw ((==_iff (k.x % 7) (k.x % 7)).1 refl, (==_iff (total h % 256) (total h % 256)).1 refl);
}

unfoldable pub key : EcdsaKey
key = record { secret = 5; x = 5; y = 9 }
