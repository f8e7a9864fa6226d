-- ===== src/Graph/Accept.antt =====
-- graph/graph.go and graph/util.go: the nodes that `Append` makes, and the checks of dag/dag.go.
use setinstone.Prelude.{
  ℕ, ◌≡◌, ◌≢◌, refl, sym, ap, ◌∙◌, subst, [], true, false, some, inl, inr, Bool-cases, arith, Bytes,
  bytes_eq, bytes_eq_iff,
}
use setinstone.Prelude.Outcome.{ok, err, node_not_found, graph_not_found}
use setinstone.Primitives.{Primitives, PrimitivesLaws, EcdsaKey}
use setinstone.Crypto.{padded_pair}
use setinstone.Crypto.RoundTrip.{IsKey}
use setinstone.Address.{Address, full_payload, generate_address_hash}
use setinstone.Address.Keys.{of_ecdsa_key, to_ecdsa_private_key, to_ecdsa_private_key-of_ecdsa_key}
use setinstone.Address.Base58.RoundTrip.{HasNonZero}
use setinstone.Dag.Node.{Node, sign_node}
use setinstone.Dag.Core.{Dag, has_branch, get_node_by_key, get_last}
use setinstone.Dag.Core
use setinstone.Dag.Verify.{next_seq, verify_node}
use setinstone.Dag.Accept.{IsNext, verify_node_iff}
use setinstone.Dag.Signed.{verify_signature-sign_node, sign_node-IsSound}
use setinstone.Graph.{
  Graph, NodeData, create_node, new_node, seq_after, get, get_node, get_result, translate,
}

-- The owner of an address: a key pair, and the address that is generated from it.
pub record IsOwner (p : Primitives) (addr : Address) (key : EcdsaKey) : Type 0 where
  pub is_key : IsKey p key
  pub keys_of : addr.keys ≡ some (of_ecdsa_key key)
  pub nonzero : HasNonZero (full_payload p (padded_pair key.x key.y))
  pub address_of : generate_address_hash p (padded_pair key.x key.y) ≡ ok addr.address

module _ {S : Type 0} (g : Graph S) where
  -- When the graph of signed nodes does not find a key, `Get` fails with an error of not being
  -- found.
  pub get-not_found :
      (s : S) (key : Bytes)
      → Core.get g.da s key ≡ err node_not_found
      → get g s key ≡ err graph_not_found
  unfolding get get_node get_result translate
  get-not_found s key h = ap (λ o. get_result g key (translate o)) h

seq_after-starts :
    (key_root branch : Bytes) (head : Node) (head_key : Bytes)
    → head_key ≡ key_root
    → branch ≢ head.branch
    → seq_after key_root branch head head_key ≡ 1
unfolding seq_after
seq_after-starts key_root branch head head_key same other =
    let other_branch : bytes_eq head.branch branch ≡ false =
      ground (arith, bytes_eq_iff head.branch branch) in
    rw ((bytes_eq_iff head_key key_root).1 same, other_branch)

seq_after-follows :
    (key_root branch : Bytes) (head : Node) (head_key : Bytes)
    → branch ≡ head.branch
    → seq_after key_root branch head head_key ≡ next_seq head.seq
unfolding seq_after
seq_after-follows key_root branch head head_key same =
    let own : bytes_eq head.branch branch ≡ true = (bytes_eq_iff head.branch branch).1 (sym same) in
    elim (Bool-cases (bytes_eq head_key key_root)) [ inl e ↦ rw (e, own) | inr e ↦ rw e ]

create_node-keys :
    (p : Primitives) (seed : ℕ) (now : Bytes) (item : NodeData) (key_root prev : Bytes)
    (addr : Address) (seq : ℕ) (key : EcdsaKey)
    → IsOwner p addr key
    → create_node p seed now item key_root prev addr seq
      ≡ sign_node p seed key (new_node now item key_root prev addr (of_ecdsa_key key) seq)
unfolding create_node new_node
create_node-keys p seed now item key_root prev addr seq key owner =
    let same : to_ecdsa_private_key (of_ecdsa_key key) ≡ key =
      to_ecdsa_private_key-of_ecdsa_key key owner.is_key.x_fits owner.is_key.y_fits in
    rw owner.keys_of (
      ap (λ k. sign_node p seed k (new_node now item key_root prev addr (of_ecdsa_key key) seq))
        same)

module _ {S : Type 0} (da : Dag S) where
  -- An unsigned node with any signature comes next on its branch, when it is made for the head.
  created-IsNext :
      (s : S) (now signature : Bytes) (item : NodeData) (key_root head_key : Bytes) (addr : Address)
      (key : EcdsaKey) (root head : Node)
      → get_node_by_key da s key_root ≡ ok (some root)
      → has_branch root item.branch ≡ true
      → get_last da s key_root item.branch ≡ ok (some head, head_key)
      → get_node_by_key da s head_key ≡ ok (some head)
      → IsNext da s
          (record (new_node now item key_root head_key addr
            (of_ecdsa_key key)
            (seq_after key_root item.branch head head_key)) { signature = signature })
          key_root
  unfolding new_node
  created-IsNext s now signature item key_root head_key addr key root head root_found listed
        head_found stored =
      record {
        previous = head;
        previous_found = stored;
        root = root;
        root_found = root_found;
        branch_listed = listed;
        head = head;
        head_found = head_found;
        starts = seq_after-starts key_root item.branch head head_key;
        follows = seq_after-follows key_root item.branch head head_key;
      }

  -- The node that the graph's `Append` makes for the head of a branch is accepted by `VerifyNode`:
  -- when the address is its owner's, the time text parses, the branch is named and listed in the
  -- root, root and head are read under their keys, and the sequence number behind the head is not
  -- zero.
  pub verify_node-create_node :
      (laws : PrimitivesLaws da.prims) (s : S) (seed t : ℕ) (now : Bytes) (item : NodeData)
      (key_root head_key : Bytes) (addr : Address) (key : EcdsaKey) (n root head : Node)
      → IsOwner da.prims addr key
      → da.prims.parse_time now ≡ some t
      → item.branch ≢ []
      → seq_after key_root item.branch head head_key ≢ 0
      → get_node_by_key da s key_root ≡ ok (some root)
      → has_branch root item.branch ≡ true
      → get_last da s key_root item.branch ≡ ok (some head, head_key)
      → get_node_by_key da s head_key ≡ ok (some head)
      → create_node da.prims seed now item key_root head_key addr
          (seq_after key_root item.branch head head_key)
        ≡ ok n
      → verify_node da s n key_root true ≡ ok tt
  unfolding new_node of_ecdsa_key
  verify_node-create_node laws s seed t now item key_root head_key addr key n root head owner time
        branch seq root_found listed head_found stored h =
      let p : Primitives = da.prims in
      let number : ℕ = seq_after key_root item.branch head head_key in
      let unsigned : Node = new_node now item key_root head_key addr (of_ecdsa_key key) number in
      let signed =
        sym (create_node-keys p seed now item key_root head_key addr number key owner) ∙ h in
      let (_, same) =
        verify_signature-sign_node p laws key owner.is_key seed unsigned n refl signed in
      (verify_node_iff da s n key_root).1 (
        sign_node-IsSound da laws key seed t unsigned n owner.is_key owner.nonzero refl
            owner.address_of time seq branch signed,
        subst (λ m. IsNext da s m key_root) (sym same)
            (created-IsNext s now n.signature item key_root head_key addr key root head root_found
              listed head_found stored),
      )
