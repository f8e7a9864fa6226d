-- ===== src/Random.antt =====
-- internal/util/rand.go: random strings. The source of random numbers is the list of what it returns.
use setinstone.Prelude.{
  ℕ, zero, suc, ◌+◌, ◌/◌, ◌%◌, ◌≤◌, ◌<◌, ◌≡◌, refl, Bool, true, Option, none, some, List, [], ◌∷◌,
  ◌++◌, arith, Bytes, codes, ltb, leb, ◌&&◌, ◌||◌, if◌then◌else◌, length, get_elem?, All,
  All-append, length-append, Bool-cases, inl, inr,
}

abbrev pub letter_bytes : Bytes
letter_bytes = codes "abcdefghijklmnopqrstuvwxyzABCDEFGHIJKLMNOPQRSTUVWXYZ"

abbrev pub letter_idx_max : ℕ
letter_idx_max = 10

or_zero : Option ℕ → ℕ
or_zero none = 0
or_zero (some c) = c

letter : ℕ → ℕ
unfolding or_zero
letter idx = or_zero (get_elem? letter_bytes idx)

-- The rounds of the loop on one random number, `remain` indexes of six bits each: what is written, and how
-- many letters are left to write.
unfoldable pub draw_loop : ℕ → ℕ → ℕ → Bytes × ℕ
unfolding letter
draw_loop zero cache left = ([], left)
draw_loop (suc remain) cache zero = ([], 0)
draw_loop (suc remain) cache (suc left) =
    let taken = ltb (cache % 64) 52 in
    let (s, l) = draw_loop remain (cache / 64) (if taken then left else suc left) in
    (if taken then letter (cache % 64) ∷ s else s, l)

written_before : Bytes → Option Bytes → Option Bytes
written_before s none = none
written_before s (some t) = some (s ++ t)

-- `none` where the source has not given enough numbers.
unfoldable pub rand_string : List ℕ → ℕ → Option Bytes
unfolding written_before
rand_string draws zero = some []
rand_string [] (suc left) = none
rand_string (c ∷ draws) (suc left) =
    let (s, l) = draw_loop letter_idx_max c (suc left) in written_before s (rand_string draws l)

unfoldable pub is_letter : ℕ → Bool
is_letter c = (leb b'a' c && leb c b'z') || (leb b'A' c && leb c b'Z')

abbrev pub IsText : Bytes → Type 0
IsText = All (λ c. is_letter c ≡ true)

all_letters : Bytes → Bool
all_letters [] = true
all_letters (c ∷ s) = is_letter c && all_letters s

elem-letter :
    (s : Bytes) (i : ℕ)
    → all_letters s ≡ true
    → i < length s
    → is_letter (or_zero (get_elem? s i)) ≡ true
unfolding all_letters or_zero
elem-letter [] i h lt = absurd (omega arith)
elem-letter (c ∷ s) zero h lt = ground arith
elem-letter (c ∷ s) (suc i) h lt = elem-letter s i (ground arith) (omega arith)

letter-is_letter : (i : ℕ) → i < 52 → is_letter (letter i) ≡ true
unfolding letter all_letters is_letter
letter-is_letter i lt = elem-letter letter_bytes i refl lt

-- What the rounds on one number write, and what they leave.
record IsDrawn (left : ℕ) (r : Bytes × ℕ) : Type 0 where
  counts : length r.0 + r.1 ≡ left
  letters : IsText r.0

draw_loop-IsDrawn : (remain cache left : ℕ) → IsDrawn left (draw_loop remain cache left)
unfolding draw_loop
draw_loop-IsDrawn zero cache left = record { counts = omega arith; letters = tt }
draw_loop-IsDrawn (suc remain) cache zero = record { counts = omega arith; letters = tt }
draw_loop-IsDrawn (suc remain) cache (suc left) = elim (Bool-cases (ltb (cache % 64) 52)) [
  | inl t ↦
      let d : IsDrawn left (draw_loop remain (cache / 64) left) =
        draw_loop-IsDrawn remain (cache / 64) left in
      rw t (record {
        counts = omega (arith, d.counts);
        letters = (letter-is_letter (cache % 64) (ground (arith, t)), d.letters);
      })
  | inr f ↦
      let d : IsDrawn (suc left) (draw_loop remain (cache / 64) (suc left)) =
        draw_loop-IsDrawn remain (cache / 64) (suc left) in
      rw f (record { counts = d.counts; letters = d.letters })
]

draw_loop-writes :
    (remain cache left : ℕ) → cache % 64 < 52 → (draw_loop (suc remain) cache (suc left)).1 ≤ left
unfolding draw_loop
draw_loop-writes remain cache left h =
    let d : IsDrawn left (draw_loop remain (cache / 64) left) =
      draw_loop-IsDrawn remain (cache / 64) left in
    let t : ltb (cache % 64) 52 ≡ true = ground (arith, h) in rw t (omega (arith, d.counts))

-- With at least as many random numbers as letters, each with a letter in its lowest six bits,
-- `RandString` returns a text of exactly that many letters of the alphabet.
pub rand_string_lem :
    (draws : List ℕ) (n : ℕ)
    → n ≤ length draws
    → All (λ c. c % 64 < 52) draws
    → (s : Bytes) × (rand_string draws n ≡ some s) × (length s ≡ n) × IsText s
unfolding rand_string written_before
rand_string_lem draws zero h good = ([], refl, refl, tt)
rand_string_lem [] (suc left) h good = absurd (omega arith)
rand_string_lem (c ∷ draws) (suc left) h good =
    let r : Bytes × ℕ = draw_loop letter_idx_max c (suc left) in
    let d : IsDrawn (suc left) r = draw_loop-IsDrawn letter_idx_max c (suc left) in
    let fewer : r.1 ≤ left = draw_loop-writes 9 c left good.0 in
    let (t, made, long, text) = rand_string_lem draws r.1 (omega arith) good.1 in
    (
      r.0 ++ t,
      rw made refl,
      omega (arith, length-append r.0 t, d.counts),
      All-append (λ c. is_letter c ≡ true) r.0 t d.letters text,
    )
