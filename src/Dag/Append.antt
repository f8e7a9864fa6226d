-- ===== src/Dag/Append.antt =====
-- dag/dag.go: `Append` and `saveNode`.
use setinstone.Prelude.{Bool, ◌≡◌, ◌≢◌, refl, ap, ◌∙◌, subst, [], true, Option, some, Bytes}
use setinstone.Prelude.Outcome.{Outcome, ok, err, panic}
use setinstone.Prelude.Action
use setinstone.Prelude.Action.{run-bind, run-reads, run-lift, run-end}
use setinstone.Dag.Node.{Node}
use setinstone.Dag.Core.{Dag, translate, has_branch, get_last_node_name, get_node_by_key, get_last}
use setinstone.Dag.Verify.{verify_node}
use setinstone.Dag.Write.{node_path, add_resolution_for_node_branches, save_node, append}
use setinstone.Dag.Laws.{IsBacked, get_node_by_key-stored, get_node_by_key-same}
use setinstone.Dag.Stored.{
  Named, get_last-found, translated-eq-ok, add-Named, add_resolutions-Named, stays-Named,
  Named-trans,
}
use setinstone.Dag.Accept.{IsSound, IsNext, translate-eq-ok, not_nil-eq-ok, verify_node_iff}

-- The trace of a successful `saveNode`.
pub record Saved {S : Type 0} (da : Dag S) (s : S) (n : Node) (root_key key : Bytes) (s' : S)
    : Type 0 where
  pub root : Node
  pub root_found : get_node_by_key da s root_key ≡ ok (some root)
  pub json : Bytes
  pub encoded : da.to_json n ≡ ok json
  pub path : Bytes
  pub path_func : Option (Bytes → Bytes)
  pub stored : S
  pub put : da.dt.put json path_func s ≡ (ok (key, path), stored)
  pub headed : S
  pub head_added :
      da.resolver.add (get_last_node_name da root root_key n.branch) key stored ≡ (ok tt, headed)
  pub branches_added : add_resolution_for_node_branches da n key headed ≡ (ok tt, s')

module _ {S : Type 0} (da : Dag S) where
  save_node-Saved :
      (n : Node) (root_key key : Bytes) (s s' : S)
      → save_node da n root_key s ≡ (ok key, s')
      → Saved da s n root_key key s'
  unfolding save_node
  save_node-Saved n root_key key s s' h =
      let (found, a, h1) = run-reads _ _ s h in
      let (root, b, h2) = run-lift _ _ s h1 in
      let (full, c, h3) = run-reads _ _ s h2 in
      let (json, d, h4) = run-lift _ _ s h3 in
      let (kept, stored, e, h5) = run-bind _ _ s h4 in
      let (_, headed, f, h6) = run-bind _ _ stored h5 in
      let (_, final, g, h7) = run-bind _ _ headed h6 in
      let (same_key, same_state) = run-end h7 in
      subst (λ k. Saved da s n root_key k s') same_key
        (subst (λ t. Saved da s n root_key kept.0 t) same_state
          (record {
            root = root;
            root_found = translate-eq-ok _ a ∙ ap ok (not_nil-eq-ok _ found b);
            json = json;
            encoded = translate-eq-ok _ d;
            path = kept.1;
            path_func = some (node_path da full.0 n.branch);
            stored = stored;
            put = translated-eq-ok da (da.dt.put json (some (node_path da full.0 n.branch))) s e;
            headed = headed;
            head_added =
                translated-eq-ok da
                  (da.resolver.add (get_last_node_name da root root_key n.branch) kept.0) stored f;
            branches_added =
                translated-eq-ok da (add_resolution_for_node_branches da n kept.0) headed g;
          }))

  pub append-Saved :
      (n : Node) (root_key key : Bytes) (s s' : S)
      → append da n root_key s ≡ (ok key, s')
      → (verify_node da s n root_key true ≡ ok tt) × Saved da s n root_key key s'
  unfolding append
  append-Saved n root_key key s s' h =
      let (_, a, h1) = run-reads _ _ s h in
      (translate-eq-ok _ a, save_node-Saved n root_key key s s' h1)

  -- What a successful `Append` has verified.
  pub append-IsNext :
      (n : Node) (root_key key : Bytes) (s s' : S)
      → append da n root_key s ≡ (ok key, s')
      → IsNext da s n root_key
  append-IsNext n root_key key s s' h =
      let (checked, _) = append-Saved n root_key key s s' h in
      ((verify_node_iff da s n root_key).0 checked).1

  refused :
      (n : Node) (root_key : Bytes) (s : S) (o : Outcome (Unit {0}))
      → verify_node da s n root_key true ≡ o
      → (verify_node da s n root_key true ≢ ok tt)
      → ((append da n root_key s).1 ≡ s) × ((k : Bytes) → (append da n root_key s).0 ≢ ok k)
  unfolding append translate Action.◌>>=◌
  refused n root_key s (ok _) e bad = absurd (bad e)
  refused n root_key s (err c) e bad = rw e (refl, λ k q. cc q)
  refused n root_key s panic e bad = rw e (refl, λ k q. cc q)

  -- A node that is not sound, or does not come next on its branch, is refused: `Append` returns no
  -- key and leaves the state as it was.
  pub append-refused :
      (n : Node) (root_key : Bytes) (s : S)
      → ¬ (IsSound da n × IsNext da s n root_key)
      → ((append da n root_key s).1 ≡ s) × ((k : Bytes) → (append da n root_key s).0 ≢ ok k)
  append-refused n root_key s bad =
      refused n root_key s (verify_node da s n root_key true) refl
        (λ e. bad ((verify_node_iff da s n root_key).0 e))

module _ {S : Type 0} (da : Dag S) {is_text : Node → Bool} (laws : IsBacked da is_text) where
  pub Saved-Named :
      (n : Node) (root_key key : Bytes) (s s' : S) (t : Saved da s n root_key key s')
      → Named da t.stored s' key
        × (da.resolver.resolve (get_last_node_name da t.root root_key n.branch) s' ≡ ok key)
        × ((branch : Bytes)
            → has_branch n branch ≡ true
            → da.resolver.resolve (get_last_node_name da n key branch) s' ≡ ok key)
  unfolding add_resolution_for_node_branches has_branch
  Saved-Named n root_key key s s' t =
      let name : Bytes = get_last_node_name da t.root root_key n.branch in
      let (more, listed) =
        add_resolutions-Named da laws n.branches n key t.headed s' t.branches_added in
      (
        Named-trans da (add-Named da laws name key t.stored t.headed t.head_added) more,
        stays-Named da name more (laws.add_resolve name key t.stored t.headed t.head_added),
        listed,
      )

  pub Saved-node :
      (n : Node) (root_key key : Bytes) (s s' : S) (t : Saved da s n root_key key s')
      → is_text n ≡ true
      → get_node_by_key da s' key ≡ ok (some n)
  Saved-node n root_key key s s' t text =
      let (parsed, ne) = laws.json_round n t.json text t.encoded in
      let (named, _, _) = Saved-Named n root_key key s s' t in
      get_node_by_key-same da t.stored s' key (named.reads key)
      ∙ get_node_by_key-stored da t.stored key t.json n
          (laws.put_get t.json t.path_func s t.stored key t.path t.put) ne parsed

  pub Saved-others :
      (n : Node) (root_key key : Bytes) (s s' : S) (t : Saved da s n root_key key s') (k : Bytes)
      → k ≢ key
      → get_node_by_key da s' k ≡ get_node_by_key da s k
  Saved-others n root_key key s s' t k ne =
      let (named, _, _) = Saved-Named n root_key key s s' t in
      get_node_by_key-same da s s' k
        (named.reads k ∙ laws.put_keeps t.json t.path_func s t.stored key t.path k t.put ne)

  -- After a successful `Append` of a node that its encoding keeps, under a key other than that of
  -- the branch root: the node is read under the key, it is the head of its branch, it is the head
  -- of each named branch that it lists itself, and no other key reads differently.
  pub append_lem :
      (n : Node) (root_key key : Bytes) (s s' : S)
      → append da n root_key s ≡ (ok key, s')
      → is_text n ≡ true
      → root_key ≢ key
      → (get_node_by_key da s' key ≡ ok (some n))
        × (get_last da s' root_key n.branch ≡ ok (some n, key))
        × ((branch : Bytes)
            → branch ≢ []
            → has_branch n branch ≡ true
            → get_last da s' key branch ≡ ok (some n, key))
        × ((k : Bytes) → k ≢ key → get_node_by_key da s' k ≡ get_node_by_key da s k)
  append_lem n root_key key s s' h text fresh =
      let (checked, t) = append-Saved da n root_key key s s' h in
      let (sound, _) = (verify_node_iff da s n root_key).0 checked in
      let (named, head, listed) = Saved-Named n root_key key s s' t in
      let read = Saved-node n root_key key s s' t text in
      let others = Saved-others n root_key key s s' t in
      (
        read,
        get_last-found da s' t.root n root_key n.branch key sound.branch_named
            (others root_key fresh ∙ t.root_found) head read,
        λ branch ne own. get_last-found da s' n n key branch key ne read (listed branch own) read,
        others,
      )
