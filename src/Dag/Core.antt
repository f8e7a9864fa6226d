-- ===== src/Dag/Core.antt =====
-- dag/dag.go: the type Dag, the names that it gives, and what only reads.
use setinstone.Prelude.{
  ℕ, zero, suc, List, [], ◌∷◌, ◌++◌, Bool, false, ◌||◌, Option, none, some, Bytes, bytes_eq, codes,
  if◌then◌else◌,
}
use setinstone.Prelude.Outcome.{
  Error, Outcome, ok, err, panic, data_not_found, node_not_found, previous_node_not_found,
  invalid_branch, ◌>>=◌,
}
use setinstone.Primitives.{Primitives}
use setinstone.DataStore.{Reader, chunk, last, broken, DataStore}
use setinstone.Resolver.{Resolver}
use setinstone.Dag.Node.{Node}

-- The store and the resolver work on a common state `S`. `to_json` and `from_json` are json.Marshal
-- and json.Unmarshal on a node. `stack` bounds the recursion of `getFullPath`.
pub record Dag (S : Type 0) : Type 0 where
  pub name_space : Bytes
  pub dt : DataStore S
  pub resolver : Resolver S
  pub prims : Primitives
  pub to_json : Node → Outcome Bytes
  pub from_json : Bytes → Outcome Node
  pub stack : ℕ

unfoldable pub translate_error : Error → Error
translate_error data_not_found = node_not_found
translate_error e = e

-- An outcome whose error is translated.
unfoldable pub translate {ℓ} : {A : Type ℓ} → Outcome A → Outcome A
unfolding translate_error
translate (ok a) = ok a
translate (err e) = err (translate_error e)
translate panic = panic

-- `strings.Join(parts, "/")`
unfoldable pub join : List Bytes → Bytes
join [] = []
join (s ∷ []) = s
join (s ∷ t ∷ rest) = s ++ b'/' ∷ join (t ∷ rest)

unfoldable pub any_eq : Bytes → List Bytes → Bool
any_eq branch [] = false
any_eq branch (b ∷ rest) = bytes_eq b branch || any_eq branch rest

unfoldable pub has_branch : Node → Bytes → Bool
unfolding any_eq
has_branch n branch = any_eq branch n.branches

-- The loop of `getNodeByKey` over a reader.
unfoldable pub read_loop : Reader → Bytes → Outcome Bytes
unfolding translate_error
read_loop [] json = ok json
read_loop (chunk b ∷ f) json = read_loop f (json ++ b)
read_loop (last b ∷ f) json = ok (json ++ b)
read_loop (broken b e ∷ f) json = err (translate_error e)

module _ {S : Type 0} (da : Dag S) where
  unfoldable pub get_name : Bytes → List Bytes → Bytes
  get_name addr parts =
      codes "/" ++ (addr ++ (codes "/" ++ (da.name_space ++ (codes "/dag/" ++ join parts))))

  unfoldable pub get_root_node_name : Bytes → Bytes
  get_root_node_name addr = get_name addr (codes "shortcuts" ∷ codes "root" ∷ [])

  unfoldable pub get_last_node_name : Node → Bytes → Bytes → Bytes
  get_last_node_name n node_key branch =
      get_name n.address (codes "shortcuts" ∷ node_key ∷ branch ∷ codes "last" ∷ [])

  -- An empty content is a nil node with no error.
  unfoldable pub parse_node : Bytes → Outcome (Option Node)
  parse_node [] = ok none
  parse_node (c ∷ json) = translate (da.from_json (c ∷ json)) >>= λ n. ok (some n)

  unfoldable pub get_node_by_key : S → Bytes → Outcome (Option Node)
  unfolding parse_node
  get_node_by_key s key = do f ← translate (da.dt.get key s); json ← read_loop f []; parse_node json

  unfoldable pub resolve_node_key : S → Bytes → Outcome Bytes
  resolve_node_key s name = da.resolver.resolve name s

  abbrev pub resolve_root_node_key : S → Bytes → Outcome Bytes
  resolve_root_node_key s addr = resolve_node_key s (get_root_node_name addr)

  abbrev pub resolve_last_node_key : S → Node → Bytes → Bytes → Outcome Bytes
  resolve_last_node_key s n root_key branch =
      resolve_node_key s (get_last_node_name n root_key branch)

  -- The end of `GetLast`: a head that is not found is the branch root itself.
  unfoldable pub head_or_root :
      Node → Bytes → Bytes → Outcome (Option Node) → Outcome (Option Node × Bytes)
  head_or_root root root_key key (ok n) = ok (n, key)
  head_or_root root root_key key (err node_not_found) = ok (some root, root_key)
  head_or_root root root_key key (err e) = err e
  head_or_root root root_key key panic = panic

  -- `GetLast` behind the branch root, whose address is read though it may be nil.
  unfoldable pub last_of : S → Bytes → Bytes → Option Node → Outcome (Option Node × Bytes)
  unfolding head_or_root
  last_of s root_key branch none = panic
  last_of s root_key branch (some root) = do
    key ← translate (resolve_last_node_key s root root_key branch)
    head_or_root root root_key key (get_node_by_key s key)

  unfoldable pub get_last : S → Bytes → Bytes → Outcome (Option Node × Bytes)
  unfolding last_of
  get_last s root_key branch =
      if bytes_eq branch []
      then err invalid_branch
      else (get_node_by_key s root_key >>= last_of s root_key branch)

  unfoldable pub get_root : S → Bytes → Outcome (Option Node × Bytes)
  get_root s addr = do
    key ← translate (resolve_root_node_key s addr)
    n ← get_node_by_key s key
    ok (n, key)

  -- called by nothing, as is `get_previous_node`
  unfoldable pub find_previous : S → Node → Outcome (Option Node)
  find_previous s n = get_node_by_key s n.previous

  previous_of : Option Node → Outcome Node
  previous_of none = err previous_node_not_found
  previous_of (some m) = ok m

  unfoldable pub get_previous_node : S → Node → Outcome Node
  unfolding previous_of
  get_previous_node s n = translate (get_node_by_key s n.previous) >>= previous_of

  unfoldable pub get : S → Bytes → Outcome (Option Node)
  get = get_node_by_key

  -- The end of `getFullPath` behind the path of the branch root.
  unfoldable pub extend_path : Bytes → Bytes → Bytes × Option Error → Bytes × Option Error
  extend_path branch key (path, some e) = (key, some e)
  extend_path branch key ([], none) = (key, none)
  extend_path branch key (c ∷ path, none) =
      ((c ∷ path) ++ (codes "/branches/" ++ (branch ++ (codes "/" ++ key))), none)

  unfoldable pub path_of_node :
      (Bytes → Outcome (Bytes × Option Error))
      → Bytes
      → Outcome (Option Node)
      → Outcome (Bytes × Option Error)
  path_of_node above key (err e) = ok ([], some e)
  path_of_node above key panic = panic
  path_of_node above key (ok none) = panic
  path_of_node above key (ok (some n)) =
      if bytes_eq n.branch_root []
      then ok (get_name n.address (key ∷ []), none)
      else (above n.branch_root >>= λ r. ok (extend_path n.branch key r))

  -- `getFullPath` returns a path beside its error. A chain of branch roots without an end overflows
  -- the stack, which is a panic.
  unfoldable pub get_full_path : ℕ → S → Bytes → Outcome (Bytes × Option Error)
  unfolding path_of_node extend_path
  get_full_path zero s key = panic
  get_full_path (suc depth) s key =
      let above = get_full_path depth s in
      if bytes_eq key [] then ok ([], none) else path_of_node above key (get_node_by_key s key)
