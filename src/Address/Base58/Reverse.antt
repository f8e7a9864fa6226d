-- ===== src/Address/Base58/Reverse.antt =====
-- address/base58.go: the loop of `ReverseBytes`.
use setinstone.Prelude.{
  ℕ, zero, suc, ◌+◌, ◌-◌, ◌≡◌, refl, sym, ap, ◌∙◌, [], ◌∷◌, ◌++◌, some, reverse, reverse-append,
  append_assoc, append-nil, arith, Bytes, length, length-append, set, subst, ◌<◌, ◌≤◌, get_elem?,
}
use setinstone.Address.Base58.{swap, swap_loop, reverse_bytes}

get_elem?-append_at :
    (xs : Bytes) (c : ℕ) (ys : Bytes) (n : ℕ) → length xs ≡ n → get_elem? (xs ++ c ∷ ys) n ≡ some c
get_elem?-append_at [] c ys zero h = refl
get_elem?-append_at [] c ys (suc n) h = absurd (omega arith)
get_elem?-append_at (x ∷ xs) c ys zero h = absurd (omega arith)
get_elem?-append_at (x ∷ xs) c ys (suc n) h = get_elem?-append_at xs c ys n (omega arith)

set-append_at :
    (xs : Bytes) (c d : ℕ) (ys : Bytes) (n : ℕ)
    → length xs ≡ n
    → set (xs ++ c ∷ ys) n d ≡ xs ++ d ∷ ys
set-append_at [] c d ys zero h = refl
set-append_at [] c d ys (suc n) h = absurd (omega arith)
set-append_at (x ∷ xs) c d ys zero h = absurd (omega arith)
set-append_at (x ∷ xs) c d ys (suc n) h = ap (λ r. x ∷ r) (set-append_at xs c d ys n (omega arith))

-- A swap of two bytes of which everything around is known.
swap_lem :
    (xs : Bytes) (c : ℕ) (m : Bytes) (d : ℕ) (ys : Bytes) (i j : ℕ)
    → length xs ≡ i
    → length xs + suc (length m) ≡ j
    → swap i j (xs ++ c ∷ (m ++ d ∷ ys)) ≡ xs ++ d ∷ (m ++ c ∷ ys)
unfolding swap
swap_lem xs c m d ys i j hi hj =
    let at_j : length (xs ++ c ∷ m) ≡ j = omega (arith, length-append xs (c ∷ m)) in
    let at_j' : length (xs ++ d ∷ m) ≡ j = omega (arith, length-append xs (d ∷ m)) in
    let left : get_elem? (xs ++ c ∷ (m ++ d ∷ ys)) i ≡ some c =
      get_elem?-append_at xs c (m ++ d ∷ ys) i hi in
    let right : get_elem? (xs ++ c ∷ (m ++ d ∷ ys)) j ≡ some d =
      ap (λ r. get_elem? r j) (sym (append_assoc xs (c ∷ m) (d ∷ ys)))
      ∙ get_elem?-append_at (xs ++ c ∷ m) d ys j at_j in
    let second : set (xs ++ d ∷ (m ++ d ∷ ys)) j c ≡ xs ++ d ∷ (m ++ c ∷ ys) =
      ap (λ r. set r j c) (sym (append_assoc xs (d ∷ m) (d ∷ ys)))
      ∙ set-append_at (xs ++ d ∷ m) d c ys j at_j'
      ∙ append_assoc xs (d ∷ m) (c ∷ ys) in
    rw (right, left, set-append_at xs c d (m ++ d ∷ ys) i hi) second

swap_loop_done : (f i j : ℕ) (s : Bytes) → j ≤ i → swap_loop f i j s ≡ s
unfolding swap_loop
swap_loop_done zero i j s h = refl
swap_loop_done (suc f) i j s h = ground arith

swap_loop_round :
    (f i j : ℕ) (s : Bytes)
    → i < j
    → swap_loop (suc f) i j s ≡ swap_loop f (i + 1) (j - 1) (swap i j s)
unfolding swap_loop
swap_loop_round f i j s h = ground arith

-- A list seen from both ends.
data Ends : Bytes → Type 0 where
  empty : Ends []
  single : (x : ℕ) → Ends (x ∷ [])
  both : (x : ℕ) (m : Bytes) (y : ℕ) (s : Bytes) → s ≡ x ∷ (m ++ y ∷ []) → Ends s

last_view : (x : ℕ) (s : Bytes) → (m : Bytes) × (y : ℕ) × (x ∷ s ≡ m ++ y ∷ [])
last_view x [] = ([], x, refl)
last_view x (c ∷ s) = let (m, y, e) = last_view c s in (x ∷ m, y, ap (λ r. x ∷ r) e)

ends : (s : Bytes) → Ends s
ends [] = empty
ends (x ∷ []) = single x
ends (x ∷ c ∷ s) = let (m, y, e) = last_view c s in both x m y (x ∷ c ∷ s) (ap (λ r. x ∷ r) e)

reverse_ends : (x y : ℕ) (m : Bytes) → reverse (x ∷ (m ++ y ∷ [])) ≡ y ∷ (reverse m ++ x ∷ [])
reverse_ends x y m =
    reverse-append (x ∷ []) (m ++ y ∷ []) ∙ ap (λ r. r ++ x ∷ []) (reverse-append m (y ∷ []))

length_ends : (x y : ℕ) (m : Bytes) → length (x ∷ (m ++ y ∷ [])) ≡ suc (suc (length m))
length_ends x y m = omega (arith, length-append m (y ∷ []))

abbrev Swapped : ℕ → Bytes → Type 0
Swapped f mid =
    (xs ys : Bytes) (i j : ℕ)
    → length xs ≡ i
    → i + length mid - 1 ≡ j
    → length mid ≤ f
    → swap_loop f i j (xs ++ (mid ++ ys)) ≡ xs ++ (reverse mid ++ ys)

outer_round : (f x y : ℕ) (m : Bytes) → Swapped f m → Swapped (suc f) (x ∷ (m ++ y ∷ []))
outer_round f x y m ih xs ys i j hi hj le =
    let n : length (x ∷ (m ++ y ∷ [])) ≡ suc (suc (length m)) = length_ends x y m in
    swap_loop_round f i j (xs ++ (x ∷ (m ++ y ∷ []) ++ ys)) (omega arith)
    ∙ ap (λ r. swap_loop f (i + 1) (j - 1) (swap i j (xs ++ x ∷ r))) (append_assoc m (y ∷ []) ys)
    ∙ ap (swap_loop f (i + 1) (j - 1)) (swap_lem xs x m y ys i j hi (omega arith))
    ∙ ap (swap_loop f (i + 1) (j - 1)) (sym (append_assoc xs (y ∷ []) (m ++ x ∷ ys)))
    ∙ ih (xs ++ y ∷ []) (x ∷ ys) (i + 1) (j - 1) (omega (arith, length-append xs (y ∷ [])))
        (omega arith) (omega arith)
    ∙ append_assoc xs (y ∷ []) (reverse m ++ x ∷ ys)
    ∙ ap (λ r. xs ++ y ∷ r) (sym (append_assoc (reverse m) (x ∷ []) ys))
    ∙ ap (λ r. xs ++ (r ++ ys)) (sym (reverse_ends x y m))

swap_loop-Swapped_zero : (mid : Bytes) → Swapped 0 mid
swap_loop-Swapped_zero [] xs ys i j hi hj le = swap_loop_done 0 i j (xs ++ ys) (omega arith)
swap_loop-Swapped_zero (x ∷ mid) xs ys i j hi hj le = absurd (omega arith)

swap_loop_outer :
    (f : ℕ) (mid : Bytes) → ((m : Bytes) → Swapped f m) → Ends mid → Swapped (suc f) mid
swap_loop_outer f _ ih empty xs ys i j hi hj le =
    swap_loop_done (suc f) i j (xs ++ ys) (omega arith)
swap_loop_outer f _ ih (single x) xs ys i j hi hj le =
    swap_loop_done (suc f) i j (xs ++ x ∷ ys) (omega arith)
swap_loop_outer f _ ih (both x m y s e) xs ys i j hi hj le =
    subst (Swapped (suc f)) (sym e) (outer_round f x y m (ih m)) xs ys i j hi hj le

swap_loop-Swapped : (f : ℕ) (mid : Bytes) → Swapped f mid
swap_loop-Swapped zero mid = swap_loop-Swapped_zero mid
swap_loop-Swapped (suc f) mid = swap_loop_outer f mid (swap_loop-Swapped f) (ends mid)

-- The loop that swaps from both ends reverses the slice, whatever its length.
pub reverse_bytes-eq-reverse : (s : Bytes) → reverse_bytes s ≡ reverse s
unfolding reverse_bytes
reverse_bytes-eq-reverse s =
    ap (swap_loop (length s) 0 (length s - 1)) (sym (append-nil s))
    ∙ swap_loop-Swapped (length s) s [] [] 0 (length s - 1) refl (omega arith) (omega arith)
    ∙ append-nil (reverse s)
