-- ===== src/Dag/Path.antt =====
-- dag/dag.go: `getFullPath` and chains of branch roots.
use setinstone.Prelude.{
  ℕ, zero, suc, ◌<◌, ◌≡◌, ◌≢◌, refl, sym, ap, ◌∙◌, [], ◌∷◌, ◌++◌, some, none, false, Option, Bytes,
  bytes_eq, bytes_eq_iff, codes, arith,
}
use setinstone.Prelude.Outcome.{Error, Outcome, ok, ◌>>=◌}
use setinstone.Dag.Node.{Node}
use setinstone.Dag.Core.{Dag, get_name, get_node_by_key, get_full_path, extend_path, path_of_node}

module _ {S : Type 0} (da : Dag S) (s : S) where
  -- `PathTo d key path`: the chain of `d` branch roots above the node of `key` ends, and `path` names
  -- its nodes from the top, each with the branch that it stands on.
  pub data PathTo : ℕ → Bytes → Bytes → Type 0 where
    top :
        (key path : Bytes) (n : Node)
        → key ≢ []
        → get_node_by_key da s key ≡ ok (some n)
        → n.branch_root ≡ []
        → path ≡ get_name da n.address (key ∷ [])
        → PathTo 0 key path
    under :
        (d : ℕ) (key path above : Bytes) (n : Node)
        → key ≢ []
        → get_node_by_key da s key ≡ ok (some n)
        → n.branch_root ≢ []
        → PathTo d n.branch_root above
        → path ≡ above ++ (codes "/branches/" ++ (n.branch ++ (codes "/" ++ key)))
        → PathTo (suc d) key path

  not_empty : (k : Bytes) → k ≢ [] → bytes_eq k [] ≡ false
  not_empty k ne = ground (arith, bytes_eq_iff k [])

  extend_lem :
      (branch key c : Bytes)
      → c ≢ []
      → extend_path da branch key (c, none)
        ≡ (c ++ (codes "/branches/" ++ (branch ++ (codes "/" ++ key))), none)
  unfolding extend_path
  extend_lem branch key [] ne = absurd (ne refl)
  extend_lem branch key (x ∷ c) ne = refl

  append-ne-nil : (a b : Bytes) → a ≢ [] → a ++ b ≢ []
  append-ne-nil [] b ne = absurd (ne refl)
  append-ne-nil (x ∷ a) b ne = λ e. cc e

  PathTo-ne-nil : (d : ℕ) (key path : Bytes) → PathTo d key path → path ≢ []
  PathTo-ne-nil _ key path (top _ _ n ne found end named) =
      unfold get_name in λ e. cc (sym named ∙ e)
  PathTo-ne-nil _ key path (under d _ _ above n ne found more rest named) =
      let longer = append-ne-nil above _ (PathTo-ne-nil d n.branch_root above rest) in
      λ e. longer (sym named ∙ e)

  one_level :
      (fuel : ℕ) (key : Bytes)
      → key ≢ []
      → get_full_path da (suc fuel) s key
        ≡ path_of_node da (get_full_path da fuel s) key (get_node_by_key da s key)
  unfolding get_full_path
  one_level fuel key ne = rw (not_empty key ne)

  at_top :
      (above : Bytes → Outcome (Bytes × Option Error)) (key : Bytes) (n : Node)
      → n.branch_root ≡ []
      → path_of_node da above key (ok (some n)) ≡ ok (get_name da n.address (key ∷ []), none)
  unfolding path_of_node
  at_top above key n end = rw ((bytes_eq_iff n.branch_root []).1 end)

  at_under :
      (above : Bytes → Outcome (Bytes × Option Error)) (key : Bytes) (n : Node)
      → n.branch_root ≢ []
      → path_of_node da above key (ok (some n))
        ≡ (above n.branch_root >>= λ r. ok (extend_path da n.branch key r))
  unfolding path_of_node
  at_under above key n more = rw (not_empty n.branch_root more)

  -- When the chain of branch roots above a node ends after `d` of them, `getFullPath` with a stack
  -- deeper than `d` returns the path of that chain and no error.
  pub get_full_path_lem :
      (d fuel : ℕ) (key path : Bytes)
      → PathTo d key path
      → d < fuel
      → get_full_path da fuel s key ≡ ok (path, none)
  get_full_path_lem d zero key path t lt = absurd (omega arith)
  get_full_path_lem _ (suc fuel) _ _ (top key path n ne found end named) lt =
      one_level fuel key ne
      ∙ ap (path_of_node da (get_full_path da fuel s) key) found
      ∙ at_top (get_full_path da fuel s) key n end
      ∙ ap (λ r. ok (r, none)) (sym named)
  get_full_path_lem _ (suc fuel) _ _ (under d key path above n ne found more rest named) lt =
      one_level fuel key ne
      ∙ ap (path_of_node da (get_full_path da fuel s) key) found
      ∙ at_under (get_full_path da fuel s) key n more
      ∙ ap (λ r. r >>= λ t. ok (extend_path da n.branch key t))
          (get_full_path_lem d fuel n.branch_root above rest (omega arith))
      ∙ ap ok (extend_lem n.branch key above (PathTo-ne-nil d n.branch_root above rest))
      ∙ ap (λ r. ok (r, none)) (sym named)
