-- ===== src/Dag/Laws.antt =====
-- What the graph relies on of the store, the resolver and encoding/json, and how a stored node is
-- read back.
use setinstone.Prelude.{
  ◌≡◌, ◌≢◌, refl, sym, ap, ◌∙◌, [], ◌∷◌, ◌++◌, Bool, true, Option, some, append_assoc, append-nil,
  Bytes,
}
use setinstone.Prelude.Outcome.{Outcome, ok, ◌>>=◌, >>=-eq-ok}
use setinstone.DataStore.{Reader, chunk, last, broken, contents}
use setinstone.Dag.Node.{Node}
use setinstone.Dag.Core.{Dag, translate, read_loop, parse_node, get_node_by_key}

-- `is_text` tells the nodes that encoding/json writes and reads back: their strings are UTF-8, and
-- their properties stand in the order of their keys, in which a map is written.
pub record IsBacked {S : Type 0} (da : Dag S) (is_text : Node → Bool) : Type 0 where
  pub json_round :
      (n : Node) (b : Bytes)
      → is_text n ≡ true
      → da.to_json n ≡ ok b
      → (da.from_json b ≡ ok n) × (b ≢ [])
  -- what was put is read back, and nothing else that is read changes
  pub put_get :
      (b : Bytes) (f : Option (Bytes → Bytes)) (s s' : S) (key path : Bytes)
      → da.dt.put b f s ≡ (ok (key, path), s')
      → (da.dt.get key s' >>= contents) ≡ ok b
  pub put_keeps :
      (b : Bytes) (f : Option (Bytes → Bytes)) (s s' : S) (key path k : Bytes)
      → da.dt.put b f s ≡ (ok (key, path), s')
      → k ≢ key
      → da.dt.get k s' ≡ da.dt.get k s
  pub put_resolve :
      (b : Bytes) (f : Option (Bytes → Bytes)) (s s' : S) (r : Outcome (Bytes × Bytes))
      (name : Bytes)
      → da.dt.put b f s ≡ (r, s')
      → da.resolver.resolve name s' ≡ da.resolver.resolve name s
  -- a name that was added resolves, and nothing else changes
  pub add_resolve :
      (name value : Bytes) (s s' : S)
      → da.resolver.add name value s ≡ (ok tt, s')
      → da.resolver.resolve name s' ≡ ok value
  pub add_keeps :
      (name value other : Bytes) (s s' : S)
      → da.resolver.add name value s ≡ (ok tt, s')
      → other ≢ name
      → da.resolver.resolve other s' ≡ da.resolver.resolve other s
  pub add_get :
      (name value : Bytes) (s s' : S) (r : Outcome (Unit {0})) (k : Bytes)
      → da.resolver.add name value s ≡ (r, s')
      → da.dt.get k s' ≡ da.dt.get k s

-- When a reader delivers bytes without an error, in whatever pieces, the read loop of
-- `getNodeByKey` collects exactly them behind what it has.
pub read_loop-contents :
    (f : Reader) (json b : Bytes) → contents f ≡ ok b → read_loop f json ≡ ok (json ++ b)
unfolding read_loop contents
read_loop-contents [] json b h =
    ap ok (sym (append-nil json)) ∙ ap (λ r. r >>= λ t. ok (json ++ t)) h
read_loop-contents (last c ∷ f) json b h = ap (λ r. r >>= λ t. ok (json ++ t)) h
read_loop-contents (broken c e ∷ f) json b h = cc
read_loop-contents (chunk c ∷ f) json b h =
    let (d, e, g) = >>=-eq-ok (contents f) (λ t. ok (c ++ t)) h in
    read_loop-contents f (json ++ c) d e
    ∙ ap ok (append_assoc json c d)
    ∙ ap (λ r. r >>= λ t. ok (json ++ t)) g

module _ {S : Type 0} (da : Dag S) where
  parse-stored :
      (b : Bytes) (n : Node) → b ≢ [] → da.from_json b ≡ ok n → parse_node da b ≡ ok (some n)
  unfolding parse_node translate
  parse-stored [] n ne parsed = absurd (ne refl)
  parse-stored (c ∷ b) n ne parsed = rw parsed

  -- A key under which the store has the JSON text of a node gives that node.
  pub get_node_by_key-stored :
      (s : S) (key b : Bytes) (n : Node)
      → (da.dt.get key s >>= contents) ≡ ok b
      → b ≢ []
      → da.from_json b ≡ ok n
      → get_node_by_key da s key ≡ ok (some n)
  unfolding get_node_by_key translate
  get_node_by_key-stored s key b n h ne parsed =
      let (f, opened, all) = >>=-eq-ok (da.dt.get key s) contents h in
      rw (opened, read_loop-contents f [] b all) (parse-stored b n ne parsed)

  -- What is read depends on what the store returns alone.
  pub get_node_by_key-same :
      (s t : S) (key : Bytes)
      → da.dt.get key t ≡ da.dt.get key s
      → get_node_by_key da t key ≡ get_node_by_key da s key
  unfolding get_node_by_key
  get_node_by_key-same s t key e = rw e
