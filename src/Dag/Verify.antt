-- ===== src/Dag/Verify.antt =====
-- dag/dag.go: `VerifyNode`.
use setinstone.Prelude.{
  ℕ, ◌+◌, ◌%◌, ◌^◌, [], Bool, true, false, ◌&&◌, not, Option, none, some, Bytes, bytes_eq, ◌==◌,
  if◌then◌else◌,
}
use setinstone.Prelude.Outcome.{
  Error, Outcome, ok, err, panic, address_does_not_match_pub_key, invalid_node_timestamp,
  invalid_branch_seq, invalid_branch, node_not_found, previous_node_not_found,
  branch_root_not_found, head_node_not_found, previous_node_is_not_head, ◌>>=◌, ◌>>◌,
}
use setinstone.Address.{is_valid, matches_pub_key}
use setinstone.Dag.Node.{Node, verify_signature}
use setinstone.Dag.Core.{Dag, translate, has_branch, get_node_by_key, get_last}

-- A test whose failure is an early return.
abbrev pub require : Bool → Error → Outcome (Unit {0})
require true e = ok tt
require false e = err e

abbrev pub is_some {ℓ} : {A : Type ℓ} → Option A → Bool
is_some none = false
is_some (some _) = true

-- `Seq + 1` in int32.
unfoldable pub next_seq : ℕ → ℕ
next_seq seq = (seq + 1) % 2 ^ 32

-- A value that is not nil, or an early return.
abbrev pub not_nil {ℓ} : {A : Type ℓ} → Error → Option A → Outcome A
not_nil e none = err e
not_nil e (some a) = ok a

module _ {S : Type 0} (da : Dag S) where
  unfoldable pub verify_address : Node → Outcome (Unit {0})
  verify_address n = do
    translate (is_valid da.prims n.address)
    matches ← matches_pub_key da.prims n.address n.pub_key
    require matches address_does_not_match_pub_key

  unfoldable pub verify_time_stamp : Node → Bool
  verify_time_stamp n = is_some (da.prims.parse_time n.timestamp)

  -- The previous node: one that is not found has an error of its own.
  unfoldable pub not_found_as_previous : Outcome (Option Node) → Outcome Node
  not_found_as_previous (ok n) = not_nil previous_node_not_found n
  not_found_as_previous (err node_not_found) = err previous_node_not_found
  not_found_as_previous (err e) = translate (err e)
  not_found_as_previous panic = panic

  -- The tests that need the heads of the branch.
  unfoldable pub verify_head : Node → Bytes → Node → Node → Bytes → Outcome (Unit {0})
  verify_head n root_key previous head head_key = do
    require (bytes_eq head_key n.previous) previous_node_is_not_head
    require
        (not
          (bytes_eq head_key root_key && (not (bytes_eq n.branch head.branch) && not (n.seq == 1))))
        invalid_branch_seq
    require (not (bytes_eq n.branch previous.branch && not (n.seq == next_seq previous.seq)))
        invalid_branch_seq

  unfoldable pub verify_new : S → Node → Bytes → Node → Outcome (Unit {0})
  verify_new s n root_key previous = do
    root ← translate (get_node_by_key da s root_key) >>= not_nil branch_root_not_found
    require (has_branch root n.branch) invalid_branch
    last ← translate (get_last da s root_key n.branch)
    head ← not_nil head_node_not_found last.0
    verify_head n root_key previous head last.1

  unfoldable pub verify_node : S → Node → Bytes → Bool → Outcome (Unit {0})
  unfolding not_found_as_previous
  verify_node s n root_key must_be_new = do
    translate (verify_address n)
    require (verify_time_stamp n) invalid_node_timestamp
    require (not (n.seq == 0)) invalid_branch_seq
    translate (verify_signature da.prims n)
    require (not (bytes_eq n.branch [])) invalid_branch
    previous ← not_found_as_previous (get_node_by_key da s n.previous)
    if must_be_new then verify_new s n root_key previous else ok tt
