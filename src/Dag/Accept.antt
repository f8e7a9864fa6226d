-- ===== src/Dag/Accept.antt =====
-- dag/dag.go: the tests of `VerifyNode`.
use setinstone.Prelude.{
  ℕ, ◌≡◌, ◌≢◌, ◌↔◌, refl, ap, ◌∙◌, [], Bool, true, false, ◌&&◌, not, Option, none, some, inl, inr,
  Bool-cases, arith, Bytes, bytes_eq, bytes_eq_iff, ◌==◌,
}
use setinstone.Prelude.Outcome.{Error, Outcome, ok, err, panic, ◌>>=◌, ◌>>◌, >>=-eq-ok}
use setinstone.Address.{is_valid, matches_pub_key}
use setinstone.Dag.Node.{Node, verify_signature}
use setinstone.Dag.Core.{Dag, translate, has_branch, get_node_by_key, get_last}
use setinstone.Dag.Verify.{
  require, is_some, next_seq, not_nil, verify_address, verify_time_stamp, not_found_as_previous,
  verify_head, verify_new, verify_node,
}

pub translate-eq-ok {ℓ} : {A : Type ℓ} (o : Outcome A) {a : A} → translate o ≡ ok a → o ≡ ok a
unfolding translate
translate-eq-ok (ok b) h = h
translate-eq-ok (err e) h = cc
translate-eq-ok panic h = cc

require-eq-ok : (b : Bool) (e : Error) {u : Unit {0}} → require b e ≡ ok u → b ≡ true
require-eq-ok true e h = refl
require-eq-ok false e h = cc

pub not_nil-eq-ok {ℓ} :
    {A : Type ℓ} (e : Error) (o : Option A) {a : A} → not_nil e o ≡ ok a → o ≡ some a
not_nil-eq-ok e none h = cc
not_nil-eq-ok e (some a) h = cc

-- The tests of a node by itself.
pub record IsSound {S : Type 0} (da : Dag S) (n : Node) : Type 0 where
  pub address_valid : is_valid da.prims n.address ≡ ok tt
  pub key_matches : matches_pub_key da.prims n.address n.pub_key ≡ ok true
  pub time_parses : (t : ℕ) × (da.prims.parse_time n.timestamp ≡ some t)
  pub seq_counts : n.seq ≢ 0
  pub signed : verify_signature da.prims n ≡ ok tt
  pub branch_named : n.branch ≢ []

-- The tests of a new node against the branch that it goes to.
pub record IsNext {S : Type 0} (da : Dag S) (s : S) (n : Node) (root_key : Bytes) : Type 0 where
  pub previous : Node
  pub previous_found : get_node_by_key da s n.previous ≡ ok (some previous)
  pub root : Node
  pub root_found : get_node_by_key da s root_key ≡ ok (some root)
  pub branch_listed : has_branch root n.branch ≡ true
  pub head : Node
  pub head_found : get_last da s root_key n.branch ≡ ok (some head, n.previous)
  pub starts : n.previous ≡ root_key → n.branch ≢ head.branch → n.seq ≡ 1
  pub follows : n.branch ≡ previous.branch → n.seq ≡ next_seq previous.seq

three_tests :
    (a b c : Bool) (e f g : Error)
    → ((require a e >> (require b f >> require c g)) ≡ ok tt)
      ↔ ((a ≡ true) × (b ≡ true) × (c ≡ true))
three_tests a b c e f g = (λ h. ground arith, λ h. ground arith)

start_rule :
    (key root branch head : Bytes) (seq : ℕ)
    → (not (bytes_eq key root && (not (bytes_eq branch head) && not (seq == 1))) ≡ true)
      ↔ (key ≡ root → branch ≢ head → seq ≡ 1)
start_rule key root branch head seq = (
  λ h r b. ground (arith, bytes_eq_iff key root, bytes_eq_iff branch head),
  λ h. elim (Bool-cases (bytes_eq key root)) [
    | inr e ↦ rw e
    | inl e ↦ elim (Bool-cases (bytes_eq branch head)) [
      | inl b ↦ rw (e, b)
      | inr b ↦
          let one : seq ≡ 1 =
            h ((bytes_eq_iff key root).0 e) (λ q. cc (b, (bytes_eq_iff branch head).1 q)) in
          rw (e, b, one)
    ]
  ],
)

follow_rule :
    (branch previous : Bytes) (seq next : ℕ)
    → (not (bytes_eq branch previous && not (seq == next)) ≡ true)
      ↔ (branch ≡ previous → seq ≡ next)
follow_rule branch previous seq next = (
  λ h b. ground (arith, bytes_eq_iff branch previous),
  λ h. elim (Bool-cases (bytes_eq branch previous)) [
    | inr e ↦ rw e
    | inl e ↦ rw e (ground (arith, h ((bytes_eq_iff branch previous).0 e)))
  ],
)

module _ {S : Type 0} (da : Dag S) where
  head_rules :
      (n : Node) (root_key : Bytes) (previous head : Node) (head_key : Bytes)
      → (verify_head da n root_key previous head head_key ≡ ok tt) ↔ (
          (head_key ≡ n.previous)
          × (head_key ≡ root_key → n.branch ≢ head.branch → n.seq ≡ 1)
          × (n.branch ≡ previous.branch → n.seq ≡ next_seq previous.seq))
  unfolding verify_head
  head_rules n root_key previous head head_key =
      let key = bytes_eq_iff head_key n.previous in
      let start = start_rule head_key root_key n.branch head.branch n.seq in
      let follow = follow_rule n.branch previous.branch n.seq (next_seq previous.seq) in
      let tests = three_tests _ _ _ _ _ _ in
      (
        λ h. let (a, b, c) = tests.0 h in (key.0 a, start.0 b, follow.0 c),
        λ (a, b, c). tests.1 (key.1 a, start.1 b, follow.1 c),
      )

  found_node :
      (e : Error) (o : Outcome (Option Node)) {n : Node}
      → (translate o >>= not_nil e) ≡ ok n
      → o ≡ ok (some n)
  found_node e o h =
      let (found, a, b) = >>=-eq-ok (translate o) (not_nil e) h in
      translate-eq-ok o a ∙ ap ok (not_nil-eq-ok e found b)

  verify_new_sound :
      (s : S) (n : Node) (root_key : Bytes) (previous : Node)
      → get_node_by_key da s n.previous ≡ ok (some previous)
      → verify_new da s n root_key previous ≡ ok tt
      → IsNext da s n root_key
  unfolding verify_new
  verify_new_sound s n root_key previous found h =
      let (root, a, h1) = >>=-eq-ok (translate (get_node_by_key da s root_key) >>= not_nil _) _ h in
      let (_, b, h2) = >>=-eq-ok (require (has_branch root n.branch) _) _ h1 in
      let (last, c, h3) = >>=-eq-ok (translate (get_last da s root_key n.branch)) _ h2 in
      let (head, d, h4) = >>=-eq-ok (not_nil _ last.0) _ h3 in
      let (key, start, follow) = (head_rules n root_key previous head last.1).0 h4 in
      let pair : last ≡ (some head, n.previous) = λ i. (not_nil-eq-ok _ last.0 d i, key i) in
      record {
        previous = previous;
        previous_found = found;
        root = root;
        root_found = found_node _ (get_node_by_key da s root_key) a;
        branch_listed = require-eq-ok (has_branch root n.branch) _ b;
        head = head;
        head_found = translate-eq-ok (get_last da s root_key n.branch) c ∙ ap ok pair;
        starts = λ e. start (key ∙ e);
        follows = follow;
      }

  verify_new_complete :
      (s : S) (n : Node) (root_key : Bytes) (t : IsNext da s n root_key)
      → verify_new da s n root_key t.previous ≡ ok tt
  unfolding verify_new translate
  verify_new_complete s n root_key t =
      rw (t.root_found, t.branch_listed, t.head_found)
        ((head_rules n root_key t.previous t.head n.previous).1 (refl, t.starts, t.follows))

  parses : (o : Option ℕ) → is_some o ≡ true → (t : ℕ) × (o ≡ some t)
  parses none h = cc
  parses (some t) h = (t, refl)

  previous_node :
      (o : Outcome (Option Node)) {n : Node} → not_found_as_previous da o ≡ ok n → o ≡ ok (some n)
  unfolding not_found_as_previous translate
  previous_node (ok (some n)) h = ap (λ r. r >>= λ m. ok (some m)) h
  previous_node (ok none) h = cc
  previous_node (err e) h = ground arith
  previous_node panic h = cc

  address_tests :
      (n : Node)
      → (verify_address da n ≡ ok tt) ↔ (
          (is_valid da.prims n.address ≡ ok tt)
          × (matches_pub_key da.prims n.address n.pub_key ≡ ok true))
  unfolding verify_address translate
  address_tests n = (
    λ h.
        let (_, a, h1) = >>=-eq-ok (translate (is_valid da.prims n.address)) _ h in
        let (m, b, h2) = >>=-eq-ok (matches_pub_key da.prims n.address n.pub_key) _ h1 in
        (translate-eq-ok _ a, b ∙ ap ok (require-eq-ok m _ h2)),
    λ (a, b). rw (a, b),
  )

  verify_node_accepted :
      (s : S) (n : Node) (root_key : Bytes)
      → verify_node da s n root_key true ≡ ok tt
      → IsSound da n × IsNext da s n root_key
  unfolding verify_node verify_time_stamp
  verify_node_accepted s n root_key h =
      let (_, a, h1) = >>=-eq-ok (translate (verify_address da n)) _ h in
      let (_, b, h2) = >>=-eq-ok (require (is_some (da.prims.parse_time n.timestamp)) _) _ h1 in
      let (_, c, h3) = >>=-eq-ok (require (not (n.seq == 0)) _) _ h2 in
      let (_, d, h4) = >>=-eq-ok (translate (verify_signature da.prims n)) _ h3 in
      let (_, e, h5) = >>=-eq-ok (require (not (bytes_eq n.branch [])) _) _ h4 in
      let (previous, f, h6) =
        >>=-eq-ok (not_found_as_previous da (get_node_by_key da s n.previous)) _ h5 in
      let (valid, matches) = (address_tests n).0 (translate-eq-ok (verify_address da n) a) in
      let counts = require-eq-ok (not (n.seq == 0)) _ c in
      let named = require-eq-ok (not (bytes_eq n.branch [])) _ e in
      (
        record {
          address_valid = valid;
          key_matches = matches;
          time_parses = parses _ (require-eq-ok _ _ b);
          seq_counts = ground arith;
          signed = translate-eq-ok (verify_signature da.prims n) d;
          branch_named = ground (arith, bytes_eq_iff n.branch []);
        },
        verify_new_sound s n root_key previous (previous_node _ f) h6,
      )

  verify_node_accepts :
      (s : S) (n : Node) (root_key : Bytes)
      → IsSound da n
      → (t : IsNext da s n root_key) → verify_node da s n root_key true ≡ ok tt
  unfolding verify_node verify_time_stamp translate
  verify_node_accepts s n root_key v t =
      let (time, parsed) = v.time_parses in
      let counts : n.seq == 0 ≡ false = ground (arith, v.seq_counts) in
      let named : bytes_eq n.branch [] ≡ false =
        ground (arith, bytes_eq_iff n.branch [], v.branch_named) in
      rw
        (
          (address_tests n).1 (v.address_valid, v.key_matches),
          parsed,
          counts,
          v.signed,
          named,
          t.previous_found,
        )
        (verify_new_complete s n root_key t)

  -- `VerifyNode` of a new node succeeds exactly when the node is sound (a valid address that its
  -- public key makes, a time stamp that parses, a sequence number that is not zero, a signature
  -- that verifies, a branch) and comes next: its branch is listed in the branch root, its previous
  -- node is found and is the head of the branch, and its sequence number is 1 where the branch
  -- leaves its root and one more than that of a previous node on the same branch.
  pub verify_node_iff :
      (s : S) (n : Node) (root_key : Bytes)
      → (verify_node da s n root_key true ≡ ok tt) ↔ (IsSound da n × IsNext da s n root_key)
  verify_node_iff s n root_key =
      (verify_node_accepted s n root_key, λ (v, t). verify_node_accepts s n root_key v t)
