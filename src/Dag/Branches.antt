-- ===== src/Dag/Branches.antt =====
-- dag/dag.go: `Append` on one branch, and the heads of the other branches.
use setinstone.Prelude.{◌≡◌, ◌≢◌, sym, ap, ◌∙◌, Bool, true, List, [], ◌∷◌, some, Bytes}
use setinstone.Prelude.Outcome.{ok}
use setinstone.Prelude.Action.{run-bind}
use setinstone.Dag.Node.{Node}
use setinstone.Dag.Core.{Dag, get_last_node_name, get_node_by_key, get_last}
use setinstone.Dag.Write.{add_resolutions, add_resolution_for_node_branches, append}
use setinstone.Dag.Laws.{IsBacked}
use setinstone.Dag.Stored.{get_last-found}
use setinstone.Dag.Accept.{verify_node_iff}
use setinstone.Dag.Append.{Saved, append-Saved, Saved-Named, Saved-node, Saved-others}
use setinstone.Dag.Names.{IsPart, get_last_node_name-injective}

-- The name of a branch under a root resolves to a key, and the root and the node are read.
pub record IsHead {S : Type 0} (da : Dag S) (s : S) (root_key branch key : Bytes) (root n : Node)
    : Type 0 where
  pub named : branch ≢ []
  pub rooted : get_node_by_key da s root_key ≡ ok (some root)
  pub resolved : da.resolver.resolve (get_last_node_name da root root_key branch) s ≡ ok key
  pub read : get_node_by_key da s key ≡ ok (some n)

some-injective : {x y : Node} → ok (some x) ≡ ok (some y) → x ≡ y
some-injective e = cc e

pub get_last-IsHead :
    {S : Type 0} (da : Dag S) (s : S) (root_key branch key : Bytes) (root n : Node)
    → IsHead da s root_key branch key root n
    → get_last da s root_key branch ≡ ok (some n, key)
get_last-IsHead da s root_key branch key root n h =
    get_last-found da s root n root_key branch key h.named h.rooted h.resolved h.read

module _ {S : Type 0} (da : Dag S) {is_text : Node → Bool} (laws : IsBacked da is_text) where
  add_resolutions-keeps :
      (branches : List Bytes) (n : Node) (key other : Bytes) (s t : S)
      → ((branch : Bytes) → other ≢ get_last_node_name da n key branch)
      → add_resolutions da branches n key s ≡ (ok tt, t)
      → da.resolver.resolve other t ≡ da.resolver.resolve other s
  unfolding add_resolutions
  add_resolutions-keeps [] n key other s t ne h =
      ap (da.resolver.resolve other) (sym (λ i. (h i).1))
  add_resolutions-keeps (b ∷ rest) n key other s t ne h =
      let name : Bytes = get_last_node_name da n key b in
      let (_, u, added, more) =
        run-bind (da.resolver.add name key) (λ _. add_resolutions da rest n key) s h in
      add_resolutions-keeps rest n key other u t ne more
      ∙ laws.add_keeps name key other s u added (ne b)

  Saved-keeps :
      (n : Node) (root_key key other : Bytes) (s s' : S) (t : Saved da s n root_key key s')
      → other ≢ get_last_node_name da t.root root_key n.branch
      → ((branch : Bytes) → other ≢ get_last_node_name da n key branch)
      → da.resolver.resolve other s' ≡ da.resolver.resolve other s
  unfolding add_resolution_for_node_branches
  Saved-keeps n root_key key other s s' t ne own =
      add_resolutions-keeps n.branches n key other t.headed s' own t.branches_added
      ∙ laws.add_keeps (get_last_node_name da t.root root_key n.branch) key other t.stored t.headed
          t.head_added ne
      ∙ laws.put_resolve t.json t.path_func s t.stored (ok (key, t.path)) other t.put

  -- The new node is the head of its branch.
  pub append-IsHead_self :
      (n root : Node) (root_key key : Bytes) (s s' : S)
      → append da n root_key s ≡ (ok key, s')
      → is_text n ≡ true
      → root_key ≢ key
      → get_node_by_key da s root_key ≡ ok (some root)
      → IsHead da s' root_key n.branch key root n
  append-IsHead_self n root root_key key s s' h text fresh found =
      let (checked, t) = append-Saved da n root_key key s s' h in
      let (sound, _) = (verify_node_iff da s n root_key).0 checked in
      let same : t.root ≡ root = some-injective (sym t.root_found ∙ found) in
      record {
        named = sound.branch_named;
        rooted = Saved-others da laws n root_key key s s' t root_key fresh ∙ found;
        resolved =
            ap (λ r. da.resolver.resolve (get_last_node_name da r root_key n.branch) s') (sym same)
            ∙ (Saved-Named da laws n root_key key s s' t).1;
        read = Saved-node da laws n root_key key s s' t text;
      }

  -- A successful `Append` leaves the head of every other branch as it was, where addresses and keys
  -- have no '/': a branch name that resolves to a key under which a node is read does so
  -- afterwards, when it is another branch or belongs to another root, and neither its root nor its
  -- head has the new key.
  pub append-IsHead :
      (n root root' m : Node) (root_key key root_key' branch key' : Bytes) (s s' : S)
      → append da n root_key s ≡ (ok key, s')
      → get_node_by_key da s root_key ≡ ok (some root)
      → IsHead da s root_key' branch key' root' m
      → ¬ ((root_key' ≡ root_key) × (branch ≡ n.branch))
      → root_key' ≢ key
      → key' ≢ key
      → IsPart n.address
      → IsPart root.address
      → IsPart root'.address
      → IsPart root_key
      → IsPart key
      → IsPart root_key'
      → IsHead da s' root_key' branch key' root' m
  append-IsHead n root root' m root_key key root_key' branch key' s s' h found head other fresh
        fresh' n_part root_part root_part' part part_new part' =
      let (checked, t) = append-Saved da n root_key key s s' h in
      let others = Saved-others da laws n root_key key s s' t in
      let same : t.root ≡ root = some-injective (sym t.root_found ∙ found) in
      let apart : get_last_node_name da root' root_key' branch
          ≢ get_last_node_name da t.root root_key n.branch =
        λ e.
          let (_, k, b) =
            get_last_node_name-injective da root' root root_key' root_key branch n.branch root_part'
              root_part part' part (e ∙ ap (λ r. get_last_node_name da r root_key n.branch) same) in
          other (k, b) in
      let own : (b : Bytes)
          → get_last_node_name da root' root_key' branch ≢ get_last_node_name da n key b =
        λ b e.
          fresh
            (get_last_node_name-injective da root' n root_key' key branch b root_part' n_part part'
              part_new e).1 in
      record {
        named = head.named;
        rooted = others root_key' fresh ∙ head.rooted;
        resolved = Saved-keeps n root_key key _ s s' t apart own ∙ head.resolved;
        read = others key' fresh' ∙ head.read;
      }
