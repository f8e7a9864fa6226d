-- ===== src/Graph.antt =====
-- graph/graph.go and graph/util.go: what applications read and append, over the graph of signed nodes.
pub mod Accept
pub mod Iterator
use setinstone.Prelude.{
  ℕ, List, [], ◌∷◌, ◌++◌, Bool, true, false, ◌&&◌, not, Option, none, some, Bytes, bytes_eq,
  if◌then◌else◌,
}
use setinstone.Prelude.Outcome.{
  Error, Outcome, ok, err, panic, dag_already_initialized, node_not_found, already_initialized,
  graph_not_found, previous_not_found, read_only,
}
use setinstone.Prelude.Assoc.{Assoc}
use setinstone.Prelude.Action.{Action, lift, ◌>>=◌}
use setinstone.Primitives.{Primitives}
use setinstone.Address.{Address, KeyPair}
use setinstone.Address.Keys.{to_ecdsa_private_key}
use setinstone.Dag
use setinstone.Dag.Node.{Node, sign_node}
use setinstone.Dag.Core.{Dag, any_eq, get_root, get_last}
use setinstone.Dag.Core
use setinstone.Dag.Verify.{next_seq}
use setinstone.Dag.Write
use setinstone.Dag.Write.{set_root}

-- The logger is left out. Nothing sets the name and the metadata.
pub record Graph (S : Type 0) : Type 0 where
  pub name : Bytes
  pub meta_data : Bytes
  pub addr : Address
  pub da : Dag S

module _ {S : Type 0} where
  unfoldable pub get_name : Graph S → Bytes
  get_name g = g.name

  unfoldable pub get_meta_data : Graph S → Bytes
  get_meta_data g = g.meta_data

  -- The copy shares the pair of keys, which nothing writes.
  unfoldable pub get_address : Graph S → Address
  get_address g = record { keys = g.addr.keys; address = g.addr.address }

-- `graph.Node`: a node with its key.
pub record GraphNode : Type 0 where
  pub key : Bytes
  pub node : Node

pub record NodeData : Type 0 where
  pub address : Bytes
  pub payload : Bytes
  pub branch : Bytes
  pub branches : List Bytes
  pub properties : Assoc Bytes

unfoldable pub translate_error : Error → Error
translate_error dag_already_initialized = already_initialized
translate_error node_not_found = graph_not_found
translate_error e = e

unfoldable pub translate {ℓ} : {A : Type ℓ} → Outcome A → Outcome A
unfolding translate_error
translate (ok a) = ok a
translate (err e) = err (translate_error e)
translate panic = panic

-- `toGraphNode`; a nil node is dereferenced.
unfoldable pub to_graph_node : Bytes → Option Node → Outcome GraphNode
to_graph_node key none = panic
to_graph_node key (some n) = ok (record { key = key; node = n })

-- `d.addr.Keys == nil || d.addr.Keys.PrivateKey == ""`, the other way round
unfoldable pub can_write : Address → Bool
can_write addr = elim addr.keys [ none ↦ false | some k ↦ not (bytes_eq k.private_key []) ]

-- The unsigned node of `createNode`. The properties of the data are not taken over.
unfoldable pub new_node : Bytes → NodeData → Bytes → Bytes → Address → KeyPair → ℕ → Node
new_node now item key_root prev addr k seq = record {
  seq = seq;
  timestamp = now;
  address = addr.address;
  previous = prev;
  branch = item.branch;
  branch_root = key_root;
  properties = [];
  branches = item.branches;
  payload = item.payload;
  pub_key = k.public_key;
  signature = [];
}

-- `seed` is the randomness of ecdsa.Sign and `now` the formatted time.
unfoldable pub create_node :
    Primitives → ℕ → Bytes → NodeData → Bytes → Bytes → Address → ℕ → Outcome Node
create_node p seed now item key_root prev addr seq = elim addr.keys [
  | none ↦ panic
  | some k ↦ sign_node p seed (to_ecdsa_private_key k) (new_node now item key_root prev addr k seq)
]

-- The sequence number behind the head: 1 where the branch leaves its root.
unfoldable pub seq_after : Bytes → Bytes → Node → Bytes → ℕ
seq_after key_root branch head head_key =
    if bytes_eq head_key key_root && not (bytes_eq head.branch branch) then 1 else next_seq head.seq

-- The branches of a first node: its own branch is added unless it is there.
unfoldable pub with_default_branch : NodeData → NodeData
with_default_branch item =
    if any_eq item.branch item.branches
    then item
    else record item { branches = item.branches ++ item.branch ∷ [] }

module _ {S : Type 0} (g : Graph S) where
  unfoldable pub get_node : S → Bytes → Outcome (Option Node)
  get_node s key = translate (Core.get g.da s key)

  -- `Get` behind `d.get`: `none` is the answer that the key is not there.
  unfoldable pub get_result : Bytes → Outcome (Option Node) → Outcome (Option GraphNode)
  get_result key (ok none) = panic
  get_result key (ok (some n)) = ok (some (record { key = key; node = n }))
  get_result key (err node_not_found) = ok none
  get_result key (err e) = err (translate_error e)
  get_result key panic = panic

  unfoldable pub get : S → Bytes → Outcome (Option GraphNode)
  get s key = get_result key (get_node s key)

  unfoldable pub create_first_node : ℕ → Bytes → NodeData → Action S GraphNode
  create_first_node seed now item s =
      let n = create_node g.da.prims seed now (with_default_branch item) [] [] g.addr 1 in
      let first = λ (m : Node). set_root g.da m >>= λ key. lift (to_graph_node key (some m)) in
      let (o, s') = (lift n >>= first) s in (translate o, s')

  -- `Append` behind the root key, with what `GetLast` returns.
  unfoldable pub append_after :
      ℕ → Bytes → NodeData → Bytes → Outcome (Option Node × Bytes) → Action S GraphNode
  append_after seed now item key_root (err node_not_found) = lift (err previous_not_found)
  append_after seed now item key_root (err e) = lift (err e)
  append_after seed now item key_root panic = lift panic
  append_after seed now item key_root (ok (none, last_key)) = lift panic
  append_after seed now item key_root (ok (some last, last_key)) = do
    n ← lift (
        create_node g.da.prims seed now item key_root last_key g.addr
          (seq_after key_root item.branch last last_key))
    key ← Write.append g.da n key_root
    lift (to_graph_node key (some n))

  unfoldable pub append_to : ℕ → Bytes → NodeData → Bytes → Action S GraphNode
  append_to seed now item key_root s =
      append_after seed now item key_root (get_last g.da s key_root item.branch) s

  -- `Append` without a root key: beside any error the root is nil, and a first node is made.
  unfoldable pub append_at_root :
      ℕ → Bytes → NodeData → Outcome (Option Node × Bytes) → Action S GraphNode
  append_at_root seed now item (ok (some root, key)) = append_to seed now item key
  append_at_root seed now item (ok (none, key)) = create_first_node seed now item
  append_at_root seed now item (err e) = create_first_node seed now item
  append_at_root seed now item panic = lift panic

  unfoldable pub append : ℕ → Bytes → Bytes → NodeData → Action S GraphNode
  append seed now key_root item s =
      if not (can_write g.addr)
      then (err read_only, s)
      else if bytes_eq key_root []
      then append_at_root seed now item (get_root g.da s g.addr.address) s
      else append_to seed now item key_root s

  unfoldable pub manage : Address → Action S (Unit {0})
  manage addr = Write.manage g.da addr

-- `New`: the error of `Manage` is dropped.
unfoldable pub managed :
    {S : Type 0} → Address → Dag S → Outcome (Unit {0}) × S → Outcome (Graph S) × S
managed addr da (panic, s) = (panic, s)
managed addr da (ok _, s) = (ok (record { name = []; meta_data = []; addr = addr; da = da }), s)
managed addr da (err _, s) = (ok (record { name = []; meta_data = []; addr = addr; da = da }), s)

unfoldable pub new_graph : {S : Type 0} → Address → Dag S → S → Outcome (Graph S) × S
unfolding managed
new_graph addr da s =
    if can_write addr
    then managed addr da (Write.manage da addr s)
    else (ok (record { name = []; meta_data = []; addr = addr; da = da }), s)
