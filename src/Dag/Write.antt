-- ===== src/Dag/Write.antt =====
-- dag/dag.go: `SetRoot`, `Append` and `Manage`, and what they store.
use setinstone.Prelude.{
  List, [], ◌∷◌, true, not, Option, none, some, Bytes, bytes_eq, codes, if◌then◌else◌,
}
use setinstone.Prelude.Outcome.{
  Outcome, ok, err, panic, invalid_branch, default_branch_not_specified, dag_already_initialized,
  branch_root_not_found,
}
use setinstone.Prelude.Action.{Action, reads, lift, ◌>>=◌, ◌>>◌}
use setinstone.Address.{Address}
use setinstone.Dag.Node.{Node}
use setinstone.Dag.Core.{
  Dag, translate, join, has_branch, get_name, get_root_node_name, get_last_node_name,
  get_node_by_key, get_root, get_full_path,
}
use setinstone.Dag.Verify.{not_nil, verify_node}

module _ {S : Type 0} (da : Dag S) where
  -- An action whose error is translated.
  unfoldable pub translated : {A : Type 0} → Action S A → Action S A
  translated m s = let (o, s') = m s in (translate o, s')

  unfoldable pub add_resolutions : List Bytes → Node → Bytes → Action S (Unit {0})
  add_resolutions [] n key s = (ok tt, s)
  add_resolutions (branch ∷ rest) n key s =
      (da.resolver.add (get_last_node_name da n key branch) key >>= λ _. add_resolutions rest n key)
        s

  unfoldable pub add_resolution_for_node_branches : Node → Bytes → Action S (Unit {0})
  add_resolution_for_node_branches n key = add_resolutions n.branches n key

  -- the path function of `saveNode`
  unfoldable pub node_path : Bytes → Bytes → Bytes → Bytes
  node_path full_path branch cid =
      join (full_path ∷ codes "branches" ∷ branch ∷ cid ∷ codes "node" ∷ [])

  -- The error of `getFullPath` is overwritten: its path is used all the same.
  unfoldable pub save_node : Node → Bytes → Action S Bytes
  unfolding translated node_path
  save_node n root_key = do
    found ← reads (λ s. translate (get_node_by_key da s root_key))
    root ← lift (not_nil branch_root_not_found found)
    full ← reads (λ s. get_full_path da da.stack s root_key)
    json ← lift (translate (da.to_json n))
    stored ← translated (da.dt.put json (some (node_path full.0 n.branch)))
    translated (da.resolver.add (get_last_node_name da root root_key n.branch) stored.0)
    translated (add_resolution_for_node_branches n stored.0)
    lift (ok stored.0)

  unfoldable pub save_root_node : Node → Action S Bytes
  unfolding translated
  save_root_node n = do
    json ← lift (translate (da.to_json n))
    stored ←
        translated (da.dt.put json (some (λ cid. get_name da n.address (cid ∷ codes "node" ∷ []))))
    translated (da.resolver.add (get_last_node_name da n stored.0 n.branch) stored.0)
    translated (da.resolver.add (get_root_node_name da n.address) stored.0)
    translated (add_resolution_for_node_branches n stored.0)
    lift (ok stored.0)

  -- `SetRoot` behind `GetRoot`. Beside an error the root is nil, and a nil root is saved: the error
  -- is looked at no more.
  unfoldable pub set_root_after : Node → Outcome (Option Node × Bytes) → Action S Bytes
  set_root_after n (ok (some root, key)) = lift (err dag_already_initialized)
  set_root_after n (ok (none, key)) = save_root_node n
  set_root_after n (err e) = save_root_node n
  set_root_after n panic = lift panic

  unfoldable pub set_root : Node → Action S Bytes
  unfolding set_root_after
  set_root n s =
      if bytes_eq n.branch []
      then (err invalid_branch, s)
      else if not (has_branch n n.branch)
      then (err default_branch_not_specified, s)
      else set_root_after n (get_root da s n.address) s

  unfoldable pub append : Node → Bytes → Action S Bytes
  append n root_key = do
    reads (λ s. translate (verify_node da s n root_key true))
    save_node n root_key

  unfoldable pub manage : Address → Action S (Unit {0})
  manage addr = da.resolver.manage addr
