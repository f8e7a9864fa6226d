-- ===== src/Dag/Local.antt =====
-- The graph over datastore/local-data-store.go and resolver/local_resolver.go, as the program's own
-- tests put it together.
use setinstone.Prelude.{ℕ, ◌≡◌, ◌≢◌, sym, ap, ◌∙◌, [], Bool, true, Option, none, some, Bytes}
use setinstone.Prelude.Outcome.{Outcome, ok, ◌>>=◌}
use setinstone.Primitives.{Primitives}
use setinstone.DataStore.{contents}
use setinstone.DataStore.Local
use setinstone.DataStore.Local.{LocalStore, key_of, get-put}
use setinstone.Resolver.Local.{LocalResolver, resolve, add, manage, resolve-add}
use setinstone.Dag.Node.{Node}
use setinstone.Dag.Core.{Dag}
use setinstone.Dag.Laws.{IsBacked}

-- A store and a resolver beside each other.
pub record Memory : Type 0 where
  pub kept : LocalStore
  pub known : LocalResolver

-- What encoding/json does with nodes.
pub record Codec : Type 0 where
  pub to_json : Node → Outcome Bytes
  pub from_json : Bytes → Outcome Node
  pub is_text : Node → Bool
  pub json_round :
      (n : Node) (b : Bytes) → is_text n ≡ true → to_json n ≡ ok b → (from_json b ≡ ok n) × (b ≢ [])

in_store {ℓ} : {A : Type ℓ} → (LocalStore → A × LocalStore) → Memory → A × Memory
in_store f m = let (o, k) = f m.kept in (o, record m { kept = k })

in_resolver {ℓ} : {A : Type ℓ} → (LocalResolver → A × LocalResolver) → Memory → A × Memory
in_resolver f m = let (o, k) = f m.known in (o, record m { known = k })

module _ (p : Primitives) (codec : Codec) where
  unfoldable pub local_dag : Bytes → ℕ → Dag Memory
  unfolding in_store in_resolver
  local_dag name_space stack = record {
    name_space = name_space;
    dt = record {
      put = λ b f. in_store (Local.put p b f);
      remove = λ key f. in_store (Local.remove key f);
      get = λ key m. Local.get key m.kept;
    };
    resolver = record {
      resolve = λ name m. resolve p name m.known;
      add = λ name value. in_resolver (add p name value);
      manage = λ addr. in_resolver (manage addr);
    };
    prims = p;
    to_json = codec.to_json;
    from_json = codec.from_json;
    stack = stack;
  }

  put_lem :
      (b : Bytes) (f : Option (Bytes → Bytes)) (s s' : Memory) (key path : Bytes)
      → in_store (Local.put p b f) s ≡ (ok (key, path), s')
      → (key ≡ key_of p b) × (s'.kept ≡ (Local.put p b f s.kept).1)
  unfolding in_store Local.put
  put_lem b none s s' key path h =
      let q : ◌≡◌ {A = Bytes × Bytes} (key_of p b, []) (key, path) =
        cc (ap {B = Outcome (Bytes × Bytes)} (λ t. t.0) h) in
      (sym (λ i. (q i).0), sym (λ i. (h i).1.kept))
  put_lem b (some g) s s' key path h =
      let q : ◌≡◌ {A = Bytes × Bytes} (key_of p b, g (key_of p b)) (key, path) =
        cc (ap {B = Outcome (Bytes × Bytes)} (λ t. t.0) h) in
      (sym (λ i. (q i).0), sym (λ i. (h i).1.kept))

  -- The state behind an `add` is the resolver's own, and the store is as before.
  add_lem :
      (name value : Bytes) (s s' : Memory) (r : Outcome (Unit {0}))
      → in_resolver (add p name value) s ≡ (r, s')
      → (add p name value s.known ≡ (r, s'.known)) × (s'.kept ≡ s.kept)
  unfolding in_resolver
  add_lem name value s s' r h = (λ i. ((h i).0, (h i).1.known), sym (λ i. (h i).1.kept))

  -- The store and the resolver in memory, with an encoding of nodes that is read back, fulfil what
  -- the graph relies on: what is put is read and what is added resolves, neither changes another
  -- key or name, and neither changes what the other one holds.
  pub local_dag-IsBacked :
      (name_space : Bytes) (stack : ℕ) → IsBacked (local_dag name_space stack) codec.is_text
  unfolding local_dag
  local_dag-IsBacked name_space stack = record {
    json_round = codec.json_round;
    put_get = λ b f s s' key path h.
        let (named, now) = put_lem b f s s' key path h in
        (λ i. Local.get (named i) (now i) >>= contents) ∙ (get-put p b key f s.kept).0;
    put_keeps = λ b f s s' key path k h other.
        let (named, now) = put_lem b f s s' key path h in
        (λ i. Local.get k (now i)) ∙ (get-put p b k f s.kept).1 (λ q. other (q ∙ sym named));
    put_resolve = λ b f s s' r name h. λ i. resolve p name (sym h i).1.known;
    add_resolve = λ name value s s' h.
        (resolve-add p name name value s.known s'.known (add_lem name value s s' (ok tt) h).0).0;
    add_keeps = λ name value other s s' h ne.
        (resolve-add p name other value s.known s'.known (add_lem name value s s' (ok tt) h).0).1
          ne;
    add_get = λ name value s s' r k h. λ i. Local.get k ((add_lem name value s s' r h).1 i);
  }
