-- ===== src/Dag/History.antt =====
-- dag/dag.go: `SetRoot` and the calls of `Append` that follow it on one branch.
use setinstone.Prelude.{
  ◌+◌, ◌%◌, ◌^◌, ◌≡◌, ◌≢◌, refl, sym, ap, ◌∙◌, subst, Bool, true, List, [], ◌∷◌, ◌++◌, ◌⊎◌, inl,
  inr, some, Option, Bytes, All,
}
use setinstone.Prelude.Outcome.{Outcome, ok, >>=-eq-ok}
use setinstone.Dag.Node.{Node}
use setinstone.Dag.Core.{
  Dag, has_branch, get_node_by_key, get_last, get_root, get_root_node_name, resolve_node_key,
  translate,
}
use setinstone.Dag.Verify.{next_seq}
use setinstone.Dag.Write.{append, set_root}
use setinstone.Dag.Accept.{IsNext}
use setinstone.Dag.Append.{append_lem, append-IsNext}
use setinstone.Dag.Laws.{IsBacked}
use setinstone.Dag.Root.{set_root_lem}

-- The sequence number of a node behind another one.
pub record Follows (n m : Node) : Type 0 where
  pub continues : n.branch ≡ m.branch → n.seq ≡ (m.seq + 1) % 2 ^ 32
  pub starts : n.branch ≢ m.branch → n.seq ≡ 1

abbrev found_at : Option Node → Bytes → Outcome (Option Node × Bytes)
found_at n key = ok (n, key)

-- No entry has the key.
abbrev pub IsFresh : Bytes → List (Bytes × Node) → Type 0
IsFresh key = All (λ e. e.0 ≢ key)

module _ {S : Type 0} (da : Dag S) (root_key branch : Bytes) where
  -- The nodes that are found from a key back to the root, each with its number behind the one before.
  pub data Trail (s : S) : Bytes → List (Bytes × Node) → Type 0 where
    at_root :
        (root : Node)
        → get_node_by_key da s root_key ≡ ok (some root)
        → Trail s root_key ((root_key, root) ∷ [])
    behind :
        (key : Bytes) (n m : Node) (rest : List (Bytes × Node))
        → get_node_by_key da s key ≡ ok (some n)
        → n.branch ≡ branch
        → Follows n m
        → Trail s n.previous ((n.previous, m) ∷ rest)
        → Trail s key ((key, n) ∷ (n.previous, m) ∷ rest)

  -- The trail from the head of the branch.
  pub record Timeline (s : S) (key : Bytes) (n : Node) (rest : List (Bytes × Node)) : Type 0 where
    pub trail : Trail s key ((key, n) ∷ rest)
    pub head : get_last da s root_key branch ≡ ok (some n, key)

  -- Calls of `Append` that succeed, with new keys, the newest first, behind `before`.
  pub data Appends (is_text : Node → Bool) (before : List (Bytes × Node)) (s : S)
      : S → List (Bytes × Node) → Type 0 where
    nothing : Appends is_text before s s []
    more :
        (t u : S) (n : Node) (key : Bytes) (l : List (Bytes × Node))
        → Appends is_text before s t l
        → append da n root_key t ≡ (ok key, u)
        → n.branch ≡ branch
        → is_text n ≡ true
        → IsFresh key (l ++ before)
        → Appends is_text before s u ((key, n) ∷ l)

  pub Trail-kept :
      (s t : S) (key new : Bytes) (l : List (Bytes × Node))
      → Trail s key l
      → IsFresh new l
      → ((k : Bytes) → k ≢ new → get_node_by_key da t k ≡ get_node_by_key da s k)
      → Trail t key l
  Trail-kept s t _ new _ (at_root root found) fresh same =
      at_root root (same root_key fresh.0 ∙ found)
  Trail-kept s t _ new _ (behind key n m rest found own f older) fresh same =
      behind key n m rest (same key fresh.0 ∙ found) own f
        (Trail-kept s t n.previous new _ older fresh.1 same)

  pub Trail-root :
      (s : S) (key new : Bytes) (l : List (Bytes × Node))
      → Trail s key l
      → IsFresh new l
      → root_key ≢ new
  Trail-root s _ new _ (at_root root found) fresh = fresh.0
  Trail-root s _ new _ (behind key n m rest found own f older) fresh =
      Trail-root s n.previous new _ older fresh.1

  Trail-head :
      (s : S) (key : Bytes) (l : List (Bytes × Node))
      → Trail s key l
      → (n : Node) (rest : List (Bytes × Node)) → l ≡ (key, n) ∷ rest
      → (get_node_by_key da s key ≡ ok (some n)) × ((key ≡ root_key) ⊎ (n.branch ≡ branch))
  Trail-head s _ _ (at_root root found) n rest e =
      let same : root ≡ n = cc e in (found ∙ ap (λ x. ok (some x)) same, inl refl)
  Trail-head s _ _ (behind key o m tail found own f older) n rest e =
      let same : o ≡ n = cc e in
      (found ∙ ap (λ x. ok (some x)) same, inr (sym (ap (λ x. x.branch) same) ∙ own))

module _ {S : Type 0} (da : Dag S) {is_text : Node → Bool} (laws : IsBacked da is_text) where
  -- The new node stands behind the head.
  head-Follows :
      (root_key branch : Bytes) (n m : Node) (rest : List (Bytes × Node)) (s : S)
      → IsNext da s n root_key
      → n.branch ≡ branch
      → Timeline da root_key branch s n.previous m rest
      → Follows n m
  unfolding next_seq
  head-Follows root_key branch n m rest s t own line =
      let (found, place) = Trail-head da root_key branch s n.previous _ line.trail m rest refl in
      let previous : t.previous ≡ m = some-injective (sym t.previous_found ∙ found) in
      let last : (some t.head, n.previous) ≡ (some m, n.previous) =
        ok-injective (sym t.head_found ∙ ap (get_last da s root_key) own ∙ line.head) in
      record {
        continues = λ e.
            t.follows (e ∙ ap (λ x. x.branch) (sym previous))
            ∙ ap (λ x. (x.seq + 1) % 2 ^ 32) previous;
        starts = λ ne. begin place ne (some-inj (λ i. (last i).0));
      }
    where
      some-injective : {x y : Node} → ok (some x) ≡ ok (some y) → x ≡ y
      some-injective e = cc e

      some-inj : {x y : Node} → some x ≡ some y → x ≡ y
      some-inj e = cc e

      ok-injective : {x y : Option Node × Bytes} → ok x ≡ ok y → x ≡ y
      ok-injective e = cc e

      begin :
          ((n.previous ≡ root_key) ⊎ (m.branch ≡ branch))
          → n.branch ≢ m.branch
          → t.head ≡ m
          → n.seq ≡ 1
      begin (inl at) ne same = t.starts at (λ e. ne (e ∙ ap (λ x. x.branch) same))
      begin (inr e) ne same = absurd (ne (own ∙ sym e))

  pub Timeline-append :
      (root_key branch k key : Bytes) (n m : Node) (rest : List (Bytes × Node)) (s s' : S)
      → Timeline da root_key branch s k m rest
      → append da n root_key s ≡ (ok key, s')
      → n.branch ≡ branch
      → is_text n ≡ true
      → IsFresh key ((k, m) ∷ rest)
      → Timeline da root_key branch s' key n ((k, m) ∷ rest)
  Timeline-append root_key branch k key n m rest s s' line h own text fresh =
      let t = append-IsNext da n root_key key s s' h in
      let new : root_key ≢ key = Trail-root da root_key branch s k key _ line.trail fresh in
      let (read, head, _, others) = append_lem da laws n root_key key s s' h text new in
      let at : n.previous ≡ k =
        key_of (sym t.head_found ∙ ap (get_last da s root_key) own ∙ line.head) in
      let here : Timeline da root_key branch s n.previous m rest =
        subst (λ x. Timeline da root_key branch s x m rest) (sym at) line in
      let kept : Trail da root_key branch s' n.previous ((n.previous, m) ∷ rest) =
        Trail-kept da root_key branch s s' n.previous key _ here.trail
          (λ e. fresh.0 (sym at ∙ e), fresh.1) others in
      record {
        trail =
            subst (λ x. Trail da root_key branch s' key ((key, n) ∷ (x, m) ∷ rest)) at
              (behind key n m rest read own (head-Follows root_key branch n m rest s t own here)
                kept);
        head = ap (get_last da s' root_key) (sym own) ∙ head;
      }
    where
      key_of : {x y : Option Node} {a b : Bytes} → found_at x a ≡ found_at y b → a ≡ b
      key_of e = cc e

  Appends-Timeline :
      (root_key branch : Bytes) (root : Node) (s s' : S) (l : List (Bytes × Node))
      → Timeline da root_key branch s root_key root []
      → Appends da root_key branch is_text ((root_key, root) ∷ []) s s' l
      → (key : Bytes) × (n : Node) × (rest : List (Bytes × Node)) × ((l ++ (root_key, root) ∷ [])
          ≡ (key, n) ∷ rest)
        × Timeline da root_key branch s' key n rest
  Appends-Timeline root_key branch root s _ _ line nothing = (root_key, root, [], refl, line)
  Appends-Timeline root_key branch root s _ _ line (more t u n key l before added own text fresh) =
      let (k, m, rest, e, older) = Appends-Timeline root_key branch root s t l line before in
      (
        key,
        n,
        l ++ (root_key, root) ∷ [],
        refl,
        subst (Timeline da root_key branch u key n) (sym e) (
            Timeline-append root_key branch k key n m rest t u older added own text
              (subst (IsFresh key) e fresh)),
      )

  pub root_read :
      (s : S) (addr key : Bytes) (n : Node)
      → get_root da s addr ≡ ok (some n, key)
      → get_node_by_key da s key ≡ ok (some n)
  unfolding get_root
  root_read s addr key n h =
      let (k, resolved, rest) =
        >>=-eq-ok (translate (resolve_node_key da s (get_root_node_name da addr))) _ h in
      let (o, read, e) = >>=-eq-ok (get_node_by_key da s k) (λ n. ok (n, k)) rest in
      let (same_node, same_key) = both e in
      ap (get_node_by_key da s) (sym same_key) ∙ read ∙ ap ok same_node
    where
      both : {x y : Option Node} {a b : Bytes} → found_at x a ≡ found_at y b → (x ≡ y) × (a ≡ b)
      both e = (cc e, cc e)

  -- After a successful `SetRoot` and any calls of `Append` on one named branch of the root, all
  -- successful, with new keys and nodes that their encoding keeps, the last node is the head of the
  -- branch, and the previous keys lead from it through exactly the nodes that were appended, the
  -- newest first, down to the root: each is read under its key, and its sequence number is one more
  -- than that of the node before it, or 1 where the branch leaves the root.
  pub set_root-Timeline :
      (root : Node) (root_key branch : Bytes) (s s' s'' : S) (l : List (Bytes × Node))
      → set_root da root s ≡ (ok root_key, s')
      → is_text root ≡ true
      → branch ≢ []
      → has_branch root branch ≡ true
      → Appends da root_key branch is_text ((root_key, root) ∷ []) s' s'' l
      → (key : Bytes) × (n : Node) × (rest : List (Bytes × Node)) × ((l ++ (root_key, root) ∷ [])
          ≡ (key, n) ∷ rest)
        × Timeline da root_key branch s'' key n rest
  set_root-Timeline root root_key branch s s' s'' l h text named listed appends =
      let (rooted, heads, _, _) = set_root_lem da laws root root_key s s' h text in
      Appends-Timeline root_key branch root s' s'' l
        (record {
          trail = at_root root (root_read s' root.address root_key root rooted);
          head = heads branch named listed;
        })
        appends
