-- ===== src/Dag/Progress.antt =====
-- dag/dag.go: `Append` over a store and a resolver that do not fail.
use setinstone.Prelude.{◌≡◌, refl, ap, ◌∙◌, List, [], ◌∷◌, Option, some, Bytes, codes}
use setinstone.Prelude.Outcome.{Error, ok}
use setinstone.Prelude.Action
use setinstone.Dag.Node.{Node}
use setinstone.Dag.Core.{
  Dag, translate, get_name, get_last_node_name, get_node_by_key, get_full_path,
}
use setinstone.Dag.Write.{
  add_resolutions, add_resolution_for_node_branches, save_node, append, translated, node_path,
}
use setinstone.Dag.Accept.{IsSound, IsNext, verify_node_iff}

-- In a ready state the store takes all content and the resolver the names of an address, and the
-- state stays ready.
pub record IsOpen {S : Type 0} (da : Dag S) (addr : Bytes) (Ready : S → Type 0) : Type 0 where
  pub put_ok :
      (b : Bytes) (f : Option (Bytes → Bytes)) (s : S)
      → Ready s
      → (key : Bytes) × (path : Bytes) × (s' : S) × (da.dt.put b f s ≡ (ok (key, path), s'))
        × Ready s'
  pub add_ok :
      (parts : List Bytes) (value : Bytes) (s : S)
      → Ready s
      → (s' : S) × (da.resolver.add (get_name da addr parts) value s ≡ (ok tt, s')) × Ready s'

module _ {S : Type 0} (da : Dag S) (Ready : S → Type 0) where
  add_resolutions-ok :
      (branches : List Bytes) (n : Node) (key : Bytes) (s : S)
      → IsOpen da n.address Ready
      → Ready s
      → (s' : S) × (add_resolutions da branches n key s ≡ (ok tt, s')) × Ready s'
  unfolding add_resolutions Action.◌>>=◌ get_last_node_name
  add_resolutions-ok [] n key s laws ready = (s, refl, ready)
  add_resolutions-ok (b ∷ rest) n key s laws ready =
      let (t, added, still) =
        laws.add_ok (codes "shortcuts" ∷ key ∷ b ∷ codes "last" ∷ []) key s ready in
      let (u, more, done) = add_resolutions-ok rest n key t laws still in
      (u, rw (added, more), done)

  -- When the store takes all content and the resolver all names under the node's address, and that
  -- stays so, `Append` returns a key, for a node that is sound and comes next, that is encoded,
  -- whose branch root has the same address and a full path that does not panic.
  pub append-ok :
      (n root : Node) (root_key b path : Bytes) (e : Option Error) (s : S)
      → IsOpen da n.address Ready
      → Ready s
      → IsSound da n
      → IsNext da s n root_key
      → get_node_by_key da s root_key ≡ ok (some root)
      → root.address ≡ n.address
      → get_full_path da da.stack s root_key ≡ ok (path, e)
      → da.to_json n ≡ ok b
      → (key : Bytes) × (s' : S) × (append da n root_key s ≡ (ok key, s')) × Ready s'
  unfolding append save_node translated translate Action.◌>>=◌ add_resolution_for_node_branches
  append-ok n root root_key b path e s laws ready sound next found own full encoded =
      let checked = (verify_node_iff da s n root_key).1 (sound, next) in
      let (key, _, t, put, r1) = laws.put_ok b (some (node_path da path n.branch)) s ready in
      let parts : List Bytes = codes "shortcuts" ∷ root_key ∷ n.branch ∷ codes "last" ∷ [] in
      let (u, head, r2) = laws.add_ok parts key t r1 in
      let (v, more, r3) = add_resolutions-ok n.branches n key u laws r2 in
      let named : da.resolver.add (get_last_node_name da root root_key n.branch) key t
          ≡ (ok tt, u) =
        unfold get_last_node_name in
        ap (λ a. da.resolver.add (get_name da a parts) key t) own ∙ head in
      (key, v, rw (checked, found, full, encoded, put, named, more), r3)
