-- ===== src/Graph/Iterator.antt =====
-- graph/iterator.go: walking a branch back from its head.
use setinstone.Prelude.{
  ℕ, zero, suc, ◌<◌, ◌≡◌, ◌≢◌, refl, ap, ◌∙◌, List, [], ◌∷◌, false, Option, none, some, arith,
  Bytes, bytes_eq, bytes_eq_iff, if◌then◌else◌,
}
use setinstone.Prelude.Outcome.{Outcome, ok, err, panic, graph_not_found, ◌>>=◌}
use setinstone.Prelude.Action.{Action}
use setinstone.Dag.Node.{Node}
use setinstone.Dag.Core.{Dag, get_root, get_last}
use setinstone.Dag.Core
use setinstone.Graph.{Graph, GraphNode, get_node, translate}

-- `start`, the root key and the branch are given; `previous` is the key that comes next.
pub record Iterator : Type 0 where
  pub start : Bytes
  pub key_root : Bytes
  pub branch : Bytes
  pub previous : Bytes

unfoldable pub new_iterator : Bytes → Bytes → Bytes → Iterator
new_iterator start key_root branch = record {
  start = start;
  key_root = key_root;
  branch = branch;
  previous = [];
}

-- `GetIterator`; the graph is the argument of the methods.
unfoldable pub get_iterator : Bytes → Bytes → Bytes → Iterator
unfolding new_iterator
get_iterator key_root branch from = new_iterator from key_root branch

module _ {S : Type 0} (g : Graph S) (s : S) where
  after_next : Option Node → Outcome (Option Node × Bytes)
  after_next none = ok (none, [])
  after_next (some n) =
      if bytes_eq n.previous []
      then ok (none, [])
      else (translate (get_node g s n.previous) >>= λ next. ok (next, n.previous))

  -- `getNext`
  get_next : Bytes → Outcome (Option Node × Bytes)
  unfolding after_next
  get_next key = translate (Core.get g.da s key) >>= after_next

  -- `Last` behind the node that was looked up.
  last_of_result : Outcome (Option Node × Bytes) → Action Iterator (Option GraphNode)
  last_of_result (ok (none, key)) it = (ok none, it)
  last_of_result (ok (some n, key)) it =
      (ok (some (record { key = key; node = n })), record it { previous = n.previous })
  last_of_result (err graph_not_found) it = (ok none, it)
  last_of_result (err e) it = (err e, it)
  last_of_result panic it = (panic, it)

  last_on_branch : Action Iterator (Option GraphNode)
  last_on_branch it = last_of_result (get_last g.da s it.key_root it.branch) it

  -- `Last` without a root key: beside any error the root is nil.
  last_from_root : Outcome (Option Node × Bytes) → Action Iterator (Option GraphNode)
  last_from_root (ok (some root, key)) it = last_on_branch (record it { key_root = key })
  last_from_root (ok (none, key)) it = (err graph_not_found, it)
  last_from_root (err e) it = (err graph_not_found, it)
  last_from_root panic it = (panic, it)

  unfoldable pub last : Action Iterator (Option GraphNode)
  unfolding last_from_root last_on_branch last_of_result get_next after_next
  last it =
      if bytes_eq it.start []
      then if bytes_eq it.key_root []
        then last_from_root (get_root g.da s g.addr.address) it
        else last_on_branch it
      else last_of_result (get_next it.start) it

  prev_of_result : Outcome (Option Node) → Action Iterator (Option GraphNode)
  prev_of_result (ok none) it = (ok none, it)
  prev_of_result (ok (some n)) it =
      (ok (some (record { key = it.previous; node = n })), record it { previous = n.previous })
  prev_of_result (err graph_not_found) it = (ok none, it)
  prev_of_result (err e) it = (err e, it)
  prev_of_result panic it = (panic, it)

  unfoldable pub prev : Action Iterator (Option GraphNode)
  unfolding prev_of_result
  prev it =
      if bytes_eq it.previous []
      then (ok none, it)
      else prev_of_result (get_node g s it.previous) it

  -- The loop of `All` for a consumer that takes all, with `f` rounds at most.
  walk : ℕ → Outcome (Option GraphNode) × Iterator → Outcome (List GraphNode)
  unfolding prev
  walk zero r = ok []
  walk (suc f) (ok (some v), it) = walk f (prev it) >>= λ rest. ok (v ∷ rest)
  walk (suc f) (ok none, it) = ok []
  walk (suc f) (err e, it) = ok []
  walk (suc f) (panic, it) = panic

  unfoldable pub all : ℕ → Iterator → Outcome (List GraphNode)
  unfolding walk
  all f it = walk f (last it)

  -- The nodes that are found under the keys of previous nodes, down to one without a previous node.
  pub data Chain : Bytes → ℕ → List GraphNode → Type 0 where
    end : Chain [] 0 []
    link :
        (key : Bytes) (n : Node) (d : ℕ) (rest : List GraphNode)
        → key ≢ []
        → get_node g s key ≡ ok (some n)
        → Chain n.previous d rest
        → Chain key (suc d) (record { key = key; node = n } ∷ rest)

  prev-end : (it : Iterator) → it.previous ≡ [] → prev it ≡ (ok none, it)
  unfolding prev
  prev-end it e = rw ((bytes_eq_iff it.previous []).1 e)

  prev-link :
      (it : Iterator) (key : Bytes) (n : Node)
      → it.previous ≡ key
      → key ≢ []
      → get_node g s key ≡ ok (some n)
      → prev it ≡ (ok (some (record { key = key; node = n })), record it { previous = n.previous })
  unfolding prev
  prev-link it key n e ne found =
      let more : bytes_eq it.previous [] ≡ false =
        ground (arith, bytes_eq_iff it.previous [], e, ne) in
      let here : get_node g s it.previous ≡ ok (some n) = ap (get_node g s) e ∙ found in
      rw (more, here)
        (ap (λ k. (ok (some (record { key = k; node = n })), record it { previous = n.previous }))
          e)

  walk-Chain :
      (it : Iterator) (key : Bytes) (d f : ℕ) (nodes : List GraphNode)
      → Chain key d nodes
      → it.previous ≡ key
      → d < f
      → walk f (prev it) ≡ ok nodes
  unfolding walk
  walk-Chain it key d zero nodes t e lt = absurd (omega arith)
  walk-Chain it _ _ (suc f) _ end e lt = ap (walk (suc f)) (prev-end it e)
  walk-Chain it _ _ (suc f) _ (link key n d rest ne found more) e lt =
      ap (walk (suc f)) (prev-link it key n e ne found)
      ∙ ap (λ r. r >>= λ t. ok (record { key = key; node = n } ∷ t))
          (walk-Chain (record it { previous = n.previous }) n.previous d f rest more refl
            (omega arith))

  last-head :
      (it : Iterator) (head : Node) (key : Bytes)
      → it.start ≡ []
      → it.key_root ≢ []
      → get_last g.da s it.key_root it.branch ≡ ok (some head, key)
      → last it
        ≡ (ok (some (record { key = key; node = head })), record it { previous = head.previous })
  unfolding last last_on_branch
  last-head it head key whole rooted found =
      let given : bytes_eq it.key_root [] ≡ false =
        ground (arith, bytes_eq_iff it.key_root [], rooted) in
      rw ((bytes_eq_iff it.start []).1 whole, given, found)

  -- On a branch with a given root key and no start, whose head is found and whose chain of previous
  -- nodes ends after `d` nodes, `All` yields the head and then each previous node to the first one,
  -- when it has at least `d + 2` rounds.
  pub all-Chain :
      (it : Iterator) (head : Node) (key : Bytes) (d f : ℕ) (rest : List GraphNode)
      → it.start ≡ []
      → it.key_root ≢ []
      → get_last g.da s it.key_root it.branch ≡ ok (some head, key)
      → Chain head.previous d rest
      → suc d < f
      → all f it ≡ ok (record { key = key; node = head } ∷ rest)
  unfolding all walk
  all-Chain it head key d zero rest whole rooted found t lt = absurd (omega arith)
  all-Chain it head key d (suc f) rest whole rooted found t lt =
      ap (walk (suc f)) (last-head it head key whole rooted found)
      ∙ ap (λ r. r >>= λ t. ok (record { key = key; node = head } ∷ t))
          (walk-Chain (record it { previous = head.previous }) head.previous d f rest t refl
            (omega arith))
