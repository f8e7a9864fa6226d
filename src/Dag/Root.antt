-- ===== src/Dag/Root.antt =====
-- `SetRoot`: the first node of an address.
use setinstone.Prelude.{
  ◌≡◌, ◌≢◌, refl, sym, ap, ◌∙◌, subst, [], ◌∷◌, Bool, true, false, not, Option, some, none, Bytes,
  bytes_eq, bytes_eq_iff, codes, arith, if◌then◌else◌,
}
use setinstone.Prelude.Outcome.{
  Error, Outcome, ok, err, panic, dag_already_initialized, invalid_branch,
  default_branch_not_specified,
}
use setinstone.Prelude.Action.{run-bind, run-lift, run-end}
use setinstone.Dag.Node.{Node}
use setinstone.Dag.Core.{
  Dag, translate, has_branch, get_name, get_last_node_name, get_root_node_name, get_node_by_key,
  get_last, get_root, resolve_node_key,
}
use setinstone.Dag.Write.{
  add_resolution_for_node_branches, save_root_node, set_root_after, set_root,
}
use setinstone.Dag.Laws.{IsBacked, get_node_by_key-stored, get_node_by_key-same}
use setinstone.Dag.Stored.{
  translated-eq-ok, get_last-found, add-Named, add_resolutions-Named, stays-Named, Named-trans,
}
use setinstone.Dag.Accept.{translate-eq-ok}

-- The trace of a successful `saveRootNode`.
record SavedRoot {S : Type 0} (da : Dag S) (s : S) (n : Node) (key : Bytes) (s' : S) : Type 0 where
  json : Bytes
  encoded : da.to_json n ≡ ok json
  path : Bytes
  path_func : Option (Bytes → Bytes)
  stored : S
  put : da.dt.put json path_func s ≡ (ok (key, path), stored)
  headed : S
  head_added : da.resolver.add (get_last_node_name da n key n.branch) key stored ≡ (ok tt, headed)
  rooted : S
  root_added : da.resolver.add (get_root_node_name da n.address) key headed ≡ (ok tt, rooted)
  branches_added : add_resolution_for_node_branches da n key rooted ≡ (ok tt, s')

module _ {S : Type 0} (da : Dag S) where
  save_root_node-SavedRoot :
      (n : Node) (key : Bytes) (s s' : S)
      → save_root_node da n s ≡ (ok key, s')
      → SavedRoot da s n key s'
  unfolding save_root_node
  save_root_node-SavedRoot n key s s' h =
      let (json, d, h1) = run-lift _ _ s h in
      let path_func = λ (cid : Bytes). get_name da n.address (cid ∷ codes "node" ∷ []) in
      let (kept, stored, e, h2) = run-bind _ _ s h1 in
      let (_, headed, f, h3) = run-bind _ _ stored h2 in
      let (_, rooted, g, h4) = run-bind _ _ headed h3 in
      let (_, final, b, h5) = run-bind _ _ rooted h4 in
      let (same_key, same_state) = run-end h5 in
      subst (λ k. SavedRoot da s n k s') same_key
        (subst (λ t. SavedRoot da s n kept.0 t) same_state
          (record {
            json = json;
            encoded = translate-eq-ok _ d;
            path = kept.1;
            path_func = some path_func;
            stored = stored;
            put = translated-eq-ok da (da.dt.put json (some path_func)) s e;
            headed = headed;
            head_added =
                translated-eq-ok da
                  (da.resolver.add (get_last_node_name da n kept.0 n.branch) kept.0) stored f;
            rooted = rooted;
            root_added =
                translated-eq-ok da (da.resolver.add (get_root_node_name da n.address) kept.0)
                  headed g;
            branches_added =
                translated-eq-ok da (add_resolution_for_node_branches da n kept.0) rooted b;
          }))

  -- When the root of the address is resolved and read, `SetRoot` of a node whose branch is named
  -- and listed fails as already initialized and writes nothing.
  pub set_root-initialized :
      (n root : Node) (key : Bytes) (s : S)
      → get_root da s n.address ≡ ok (some root, key)
      → n.branch ≢ []
      → has_branch n n.branch ≡ true
      → set_root da n s ≡ (err dag_already_initialized, s)
  unfolding set_root
  set_root-initialized n root key s found named listed =
      let branch : bytes_eq n.branch [] ≡ false = ground (arith, bytes_eq_iff n.branch []) in
      rw (branch, listed, found)

  -- When the lookup of the root fails with any error, `SetRoot` of a node whose branch is named and
  -- listed does what `saveRootNode` does.
  pub set_root-err :
      (n : Node) (e : Error) (s : S)
      → get_root da s n.address ≡ err e
      → n.branch ≢ []
      → has_branch n n.branch ≡ true
      → set_root da n s ≡ save_root_node da n s
  unfolding set_root
  set_root-err n e s failed named listed =
      let branch : bytes_eq n.branch [] ≡ false = ground (arith, bytes_eq_iff n.branch []) in
      rw (branch, listed, failed)

  after-saved :
      (n : Node) (o : Outcome (Option Node × Bytes)) (key : Bytes) (s s' : S)
      → set_root_after da n o s ≡ (ok key, s')
      → save_root_node da n s ≡ (ok key, s')
  unfolding set_root_after
  after-saved n (ok (some root, k)) key s s' h = cc (ap {B = Outcome Bytes} (λ t. t.0) h)
  after-saved n (ok (none, k)) key s s' h = h
  after-saved n (err e) key s s' h = h
  after-saved n panic key s s' h = cc (ap {B = Outcome Bytes} (λ t. t.0) h)

  set_root_steps :
      (n : Node) (s : S)
      → set_root da n s ≡ (
          if bytes_eq n.branch []
          then (err invalid_branch, s)
          else if not (has_branch n n.branch)
          then (err default_branch_not_specified, s)
          else set_root_after da n (get_root da s n.address) s)
  unfolding set_root
  set_root_steps n s = refl

  passed :
      (a b : Bool) (e f : Error) (key : Bytes) (s s' : S) (run : Outcome Bytes × S)
      → (if a then (err e, s) else if not b then (err f, s) else run) ≡ (ok key, s')
      → (a ≡ false) × (b ≡ true) × (run ≡ (ok key, s'))
  passed true b e f key s s' run h = cc (ap {B = Outcome Bytes} (λ t. t.0) h)
  passed false false e f key s s' run h = cc (ap {B = Outcome Bytes} (λ t. t.0) h)
  passed false true e f key s s' run h = (refl, refl, h)

  -- A successful `SetRoot` has gone through its tests and saved the node.
  saved-cases :
      (n : Node) (key : Bytes) (s s' : S)
      → set_root da n s ≡ (ok key, s')
      → (n.branch ≢ []) × (has_branch n n.branch ≡ true) × SavedRoot da s n key s'
  saved-cases n key s s' h =
      let (a, b, run) =
        passed (bytes_eq n.branch []) (has_branch n n.branch) invalid_branch
          default_branch_not_specified key s s' _ (sym (set_root_steps n s) ∙ h) in
      (
        λ e. cc (a, (bytes_eq_iff n.branch []).1 e),
        b,
        save_root_node-SavedRoot n key s s' (after-saved n (get_root da s n.address) key s s' run),
      )

module _ {S : Type 0} (da : Dag S) {is_text : Node → Bool} (laws : IsBacked da is_text) where
  get_root-found :
      (s : S) (n : Node) (addr key : Bytes)
      → da.resolver.resolve (get_root_node_name da addr) s ≡ ok key
      → get_node_by_key da s key ≡ ok (some n)
      → get_root da s addr ≡ ok (some n, key)
  unfolding get_root resolve_node_key translate
  get_root-found s n addr key resolved read = rw (resolved, read)

  -- The branches that the root lists resolve to it.
  pub set_root-listed :
      (n : Node) (key branch : Bytes) (s s' : S)
      → set_root da n s ≡ (ok key, s')
      → has_branch n branch ≡ true
      → da.resolver.resolve (get_last_node_name da n key branch) s' ≡ ok key
  unfolding add_resolution_for_node_branches has_branch
  set_root-listed n key branch s s' h own =
      let (_, _, t) = saved-cases da n key s s' h in
      (add_resolutions-Named da laws n.branches n key t.rooted s' t.branches_added).1 branch own

  -- After a successful `SetRoot` of a node that its encoding keeps: the node is the root of its
  -- address and the head of each named branch that it lists, no other key reads differently, and a
  -- second `SetRoot` of the address, with a branch that the node lists, is refused and writes
  -- nothing.
  pub set_root_lem :
      (n : Node) (key : Bytes) (s s' : S)
      → set_root da n s ≡ (ok key, s')
      → is_text n ≡ true
      → (get_root da s' n.address ≡ ok (some n, key))
        × ((branch : Bytes)
            → branch ≢ []
            → has_branch n branch ≡ true
            → get_last da s' key branch ≡ ok (some n, key))
        × ((k : Bytes) → k ≢ key → get_node_by_key da s' k ≡ get_node_by_key da s k)
        × ((m : Node)
            → m.address ≡ n.address
            → m.branch ≢ []
            → has_branch m m.branch ≡ true
            → set_root da m s' ≡ (err dag_already_initialized, s'))
  unfolding add_resolution_for_node_branches has_branch
  set_root_lem n key s s' h text =
      let (named_branch, own, t) = saved-cases da n key s s' h in
      let root_name : Bytes = get_root_node_name da n.address in
      let (parsed, ne) = laws.json_round n t.json text t.encoded in
      let (more, listed) =
        add_resolutions-Named da laws n.branches n key t.rooted s' t.branches_added in
      let named =
        Named-trans da
          (add-Named da laws (get_last_node_name da n key n.branch) key t.stored t.headed
            t.head_added)
          (Named-trans da (add-Named da laws root_name key t.headed t.rooted t.root_added) more) in
      let read : get_node_by_key da s' key ≡ ok (some n) =
        get_node_by_key-same da t.stored s' key (named.reads key)
        ∙ get_node_by_key-stored da t.stored key t.json n
            (laws.put_get t.json t.path_func s t.stored key t.path t.put) ne parsed in
      let root : get_root da s' n.address ≡ ok (some n, key) =
        get_root-found s' n n.address key
          (stays-Named da root_name more
            (laws.add_resolve root_name key t.headed t.rooted t.root_added))
          read in
      (
        root,
        λ branch b l. get_last-found da s' n n key branch key b read (listed branch l) read,
        λ k fresh.
            get_node_by_key-same da s s' k (
              named.reads k
              ∙ laws.put_keeps t.json t.path_func s t.stored key t.path k t.put fresh),
        λ m same b l. set_root-initialized da m n key s' (ap (get_root da s') same ∙ root) b l,
      )
