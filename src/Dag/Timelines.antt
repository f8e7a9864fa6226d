-- ===== src/Dag/Timelines.antt =====
-- dag/dag.go: `SetRoot` and the calls of `Append` that follow it, on any branches in any order.
use setinstone.Prelude.{
  ◌≡◌, ◌≢◌, refl, sym, ap, ◌∙◌, subst, Bool, true, false, ◌&&◌, List, [], ◌∷◌, ◌++◌, some, Bytes,
  All, bytes_eq, bytes_eq_iff, Bool-cases, ◌⊎◌, inl, inr,
}
use setinstone.Prelude.Outcome.{ok}
use setinstone.Dag.Node.{Node}
use setinstone.Dag.Core.{Dag, has_branch, get_node_by_key}
use setinstone.Dag.Write.{append, set_root}
use setinstone.Dag.Laws.{IsBacked}
use setinstone.Dag.Append.{append_lem}
use setinstone.Dag.Root.{set_root_lem, set_root-listed}
use setinstone.Dag.Names.{IsPart}
use setinstone.Dag.Branches.{IsHead, get_last-IsHead, append-IsHead_self, append-IsHead}
use setinstone.Dag.History.{Trail, Timeline, IsFresh, Trail-kept, root_read, Timeline-append}

-- A call of `Append`: the key of the branch root, and the node with its key.
pub record Call : Type 0 where
  pub under : Bytes
  pub key : Bytes
  pub node : Node

on_branch_if : Bool → Call → List (Bytes × Node) → List (Bytes × Node)
on_branch_if true c rest = (c.key, c.node) ∷ rest
on_branch_if false c rest = rest

-- The nodes that were appended to one branch of one root.
unfoldable pub on_branch : Bytes → Bytes → List Call → List (Bytes × Node)
unfolding on_branch_if
on_branch root_key branch [] = []
on_branch root_key branch (c ∷ calls) =
    on_branch_if (bytes_eq c.under root_key && bytes_eq c.node.branch branch) c
      (on_branch root_key branch calls)

-- No call has the key, and the first root has another one.
abbrev pub IsNew : Bytes → Bytes → List Call → Type 0
IsNew root_key key calls = (root_key ≢ key) × All (λ c. c.key ≢ key) calls

module _ {S : Type 0} (da : Dag S) (root_key : Bytes) where
  -- Calls of `Append` that succeed, with new keys, the newest first. Addresses and keys have no '/'.
  pub data Calls (is_text : Node → Bool) (s : S) : S → List Call → Type 0 where
    nothing : Calls is_text s s []
    more :
        (t u : S) (n root : Node) (under key : Bytes) (calls : List Call)
        → Calls is_text s t calls
        → append da n under t ≡ (ok key, u)
        → is_text n ≡ true
        → get_node_by_key da t under ≡ ok (some root)
        → under ≢ key
        → IsNew root_key key calls
        → IsPart n.address
        → IsPart root.address
        → IsPart under
        → IsPart key
        → Calls is_text s u (record { under = under; key = key; node = n } ∷ calls)

  on_branch-IsFresh :
      (root : Node) (branch key : Bytes) (calls : List Call)
      → IsNew root_key key calls
      → IsFresh key (on_branch root_key branch calls ++ (root_key, root) ∷ [])
  unfolding on_branch
  on_branch-IsFresh root branch key [] h = (h.0, tt)
  on_branch-IsFresh root branch key (c ∷ calls) h =
      let rest = on_branch-IsFresh root branch key calls (h.0, h.1.1) in
      on_test (bytes_eq c.under root_key && bytes_eq c.node.branch branch) rest
    where
      on_test :
          (b : Bool)
          → IsFresh key (on_branch root_key branch calls ++ (root_key, root) ∷ [])
          → IsFresh key
              (on_branch_if b c (on_branch root_key branch calls) ++ (root_key, root) ∷ [])
      on_test true rest = (h.1.0, rest)
      on_test false rest = rest

module _ {S : Type 0} (da : Dag S) {is_text : Node → Bool} (laws : IsBacked da is_text) where
  -- The timeline of a branch behind some calls, with the name of its head.
  record Line (root_key branch : Bytes) (root : Node) (s : S) (calls : List Call) : Type 0 where
    key : Bytes
    node : Node
    rest : List (Bytes × Node)
    listed : on_branch root_key branch calls ++ (root_key, root) ∷ [] ≡ (key, node) ∷ rest
    timeline : Timeline da root_key branch s key node rest
    head : IsHead da s root_key branch key root node

  Line-IsFresh :
      (root_key branch key : Bytes) (root : Node) (s : S) (calls : List Call)
      (line : Line root_key branch root s calls)
      → IsNew root_key key calls
      → IsFresh key ((line.key, line.node) ∷ line.rest)
  Line-IsFresh root_key branch key root s calls line new =
      subst (IsFresh key) line.listed (on_branch-IsFresh da root_key root branch key calls new)

  -- A call on the branch itself.
  Line-own :
      (root_key branch key : Bytes) (root n : Node) (s s' : S) (calls : List Call)
      (line : Line root_key branch root s calls)
      → append da n root_key s ≡ (ok key, s')
      → n.branch ≡ branch
      → is_text n ≡ true
      → IsNew root_key key calls
      → (((key, n) ∷ on_branch root_key branch calls) ++ (root_key, root) ∷ []
          ≡ (key, n) ∷ (line.key, line.node) ∷ line.rest)
        × Timeline da root_key branch s' key n ((line.key, line.node) ∷ line.rest)
        × IsHead da s' root_key branch key root n
  Line-own root_key branch key root n s s' calls line added own text new = (
    ap (λ l. (key, n) ∷ l) line.listed,
    Timeline-append da laws root_key branch line.key key n line.node line.rest s s' line.timeline
        added own text (Line-IsFresh root_key branch key root s calls line new),
    subst (λ b. IsHead da s' root_key b key root n) own
        (append-IsHead_self da laws n root root_key key s s' added text new.0 line.head.rooted),
  )

  -- A call on another branch, or under another root.
  Line-other :
      (root_key under branch key : Bytes) (root over n : Node) (s s' : S) (calls : List Call)
      (line : Line root_key branch root s calls)
      → append da n under s ≡ (ok key, s')
      → get_node_by_key da s under ≡ ok (some over)
      → ¬ ((root_key ≡ under) × (branch ≡ n.branch))
      → is_text n ≡ true
      → under ≢ key
      → IsNew root_key key calls
      → IsPart n.address
      → IsPart over.address
      → IsPart root.address
      → IsPart under
      → IsPart key
      → IsPart root_key
      → Timeline da root_key branch s' line.key line.node line.rest
        × IsHead da s' root_key branch line.key root line.node
  Line-other root_key under branch key root over n s s' calls line added found other text apart new
        n_part over_part root_part under_part key_part root_key_part =
      let fresh = Line-IsFresh root_key branch key root s calls line new in
      let (_, _, _, others) = append_lem da laws n under key s s' added text apart in
      let head =
        append-IsHead da laws n over root line.node under key root_key branch line.key s s' added
          found line.head other new.0 fresh.0 n_part over_part root_part under_part key_part
          root_key_part in
      (
        record {
          trail =
              Trail-kept da root_key branch s s' line.key key _ line.timeline.trail fresh others;
          head = get_last-IsHead da s' root_key branch line.key root line.node head;
        },
        head,
      )

  -- Whether a call is on the branch.
  on_branch-cases :
      (root_key branch : Bytes) (c : Call) (calls : List Call)
      → ((c.under ≡ root_key)
          × (c.node.branch ≡ branch)
          × (on_branch root_key branch (c ∷ calls)
              ≡ (c.key, c.node) ∷ on_branch root_key branch calls))
        ⊎ (¬ ((root_key ≡ c.under) × (branch ≡ c.node.branch))
            × (on_branch root_key branch (c ∷ calls) ≡ on_branch root_key branch calls))
  unfolding on_branch on_branch_if
  on_branch-cases root_key branch c calls =
      let (under_to, under_from) = bytes_eq_iff c.under root_key in
      let (branch_to, branch_from) = bytes_eq_iff c.node.branch branch in
      elim (Bool-cases (bytes_eq c.under root_key)) [
        | inl e ↦ elim (Bool-cases (bytes_eq c.node.branch branch)) [
          | inl f ↦ inl (under_to e, branch_to f, rw (e, f))
          | inr f ↦ inr (λ q. cc (f, branch_from (sym q.1)), rw (e, f))
        ]
        | inr e ↦ inr (λ q. cc (e, under_from (sym q.0)), rw e)
      ]

  Calls-Line :
      (root_key branch : Bytes) (root : Node) (s s' : S) (calls : List Call)
      → IsPart root.address
      → IsPart root_key
      → Line root_key branch root s []
      → Calls da root_key is_text s s' calls
      → Line root_key branch root s' calls
  unfolding on_branch
  Calls-Line root_key branch root s _ _ a b line nothing = line
  Calls-Line root_key branch root s _ _ a b line
        (more t u n over under key calls before added text found apart new n_part over_part
          under_part key_part) =
      let older = Calls-Line root_key branch root s t calls a b line before in
      let c : Call = record { under = under; key = key; node = n } in
      elim (on_branch-cases root_key branch c calls) [
        | inl (at, own, e) ↦
            let (listed, timeline, head) =
              Line-own root_key branch key root n t u calls older
                (subst (λ r. append da n r t ≡ (ok key, u)) at added) own text new in
            record {
              key = key;
              node = n;
              rest = (older.key, older.node) ∷ older.rest;
              listed = ap (λ l. l ++ (root_key, root) ∷ []) e ∙ listed;
              timeline = timeline;
              head = head;
            }
        | inr (other, e) ↦
            let (timeline, head) =
              Line-other root_key under branch key root over n t u calls older added found other
                text apart new n_part over_part a under_part key_part b in
            record {
              key = older.key;
              node = older.node;
              rest = older.rest;
              listed = ap (λ l. l ++ (root_key, root) ∷ []) e ∙ older.listed;
              timeline = timeline;
              head = head;
            }
      ]

  -- After a successful `SetRoot` and any calls of `Append`, on any branches under any roots in any
  -- order, all successful, with new keys, nodes that their encoding keeps, and addresses and keys
  -- without a '/', each named branch of the first root has for its timeline exactly the nodes that
  -- were appended to it: the newest is its head, and the previous keys lead from it through them,
  -- the newest first, down to the root; each is read under its key, and its sequence number is one
  -- more than that of the node before it, or 1 where the branch leaves the root.
  pub set_root-Timelines :
      (root : Node) (root_key branch : Bytes) (s s' s'' : S) (calls : List Call)
      → set_root da root s ≡ (ok root_key, s')
      → is_text root ≡ true
      → IsPart root.address
      → IsPart root_key
      → Calls da root_key is_text s' s'' calls
      → branch ≢ []
      → has_branch root branch ≡ true
      → (key : Bytes) × (n : Node) × (rest : List (Bytes × Node)) × (on_branch root_key branch calls
            ++ (root_key, root) ∷ []
          ≡ (key, n) ∷ rest)
        × Timeline da root_key branch s'' key n rest
  set_root-Timelines root root_key branch s s' s'' calls h text part key_part made named listed =
      let (rooted, heads, _, _) = set_root_lem da laws root root_key s s' h text in
      let found = root_read da laws s' root.address root_key root rooted in
      let line =
        Calls-Line root_key branch root s' s'' calls part key_part
          (record {
            key = root_key;
            node = root;
            rest = [];
            listed = unfold on_branch in refl;
            timeline = record {
              trail = Trail.at_root root found;
              head = heads branch named listed;
            };
            head = record {
              named = named;
              rooted = found;
              resolved = set_root-listed da laws root root_key branch s s' h listed;
              read = found;
            };
          })
          made in
      (line.key, line.node, line.rest, line.listed, line.timeline)
