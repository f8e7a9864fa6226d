-- ===== src/Tests/Timeline.antt =====
-- The timeline of an owner at concrete inputs.
use setinstone.Prelude.{◌≡◌, refl, [], ◌∷◌, ◌++◌, true, some, arith, bytes_eq, codes, replicate}
use setinstone.Prelude.Outcome.{ok}
use setinstone.BigInt.{big_bytes, set_bytes}
use setinstone.Hex.{encode_to_string, decode_string}
use setinstone.Crypto.{padded_pair, left_pad_bytes, sign, halves}
use setinstone.Crypto.RoundTrip.{IsKey}
use setinstone.Address.{Address, full_payload, hash_pub_key, checksum, generate_address_hash}
use setinstone.Address.Base58.{base58_encode}
use setinstone.Address.Base58.RoundTrip.{after}
use setinstone.Address.Keys.{of_ecdsa_key, to_ecdsa_private_key}
use setinstone.Dag.Node.{
  get_bytes_for_signing, sign_node, itoa, get_map_bytes, get_slice_bytes, sort_strings,
}
use setinstone.Dag.Core.{get_last, has_branch}
use setinstone.Dag.Verify.{next_seq, verify_node}
use setinstone.Dag.Local.{Memory, local_dag, local_dag-IsBacked}
use setinstone.Dag.Root.{set_root_lem}
use setinstone.Graph.{Graph, NodeData, create_node, new_node, seq_after}
use setinstone.Graph.Accept.{IsOwner, verify_node-create_node}
use setinstone.Tests.Samples.{toy, toy-laws, key}
use setinstone.Tests.Codec.{toy_codec, no_properties}
use setinstone.Tests.World.{owner, da, start, root, root_key, root-saved, root-stored, rooted, next}

abbrev owner_address : Address
owner_address = record { keys = some (of_ecdsa_key key); address = owner }

key-IsKey : IsKey toy key
unfolding toy key
key-IsKey = record { pair = refl; x_fits = omega arith; y_fits = omega arith }

is_owner : IsOwner toy owner_address key
unfolding toy key hash_pub_key checksum padded_pair left_pad_bytes big_bytes generate_address_hash
    base58_encode
is_owner = record {
  is_key = key-IsKey;
  keys_of = refl;
  nonzero =
      after 1 45 (replicate 19 1 ++ 95 ∷ 1 ∷ 1 ∷ 1 ∷ []) (full_payload toy (padded_pair 5 9))
        (omega arith) refl;
  address_of = refl;
}

abbrev item : NodeData
item = record {
  address = owner;
  payload = codes "next";
  branch = codes "m";
  branches = codes "c" ∷ [];
  properties = [];
}

number : seq_after root_key (codes "m") root root_key ≡ 2
unfolding seq_after bytes_eq encode_to_string next_seq
number = refl

next-created :
    create_node toy 0
      (codes "2027")
      item
      root_key
      root_key
      owner_address
      (seq_after root_key (codes "m") root root_key)
    ≡ ok next
unfolding seq_after create_node new_node sign_node sign toy key of_ecdsa_key to_ecdsa_private_key
    get_bytes_for_signing itoa get_map_bytes sort_strings get_slice_bytes padded_pair left_pad_bytes
    big_bytes encode_to_string decode_string halves set_bytes bytes_eq next_seq
next-created = refl

root-text : no_properties root ≡ true
unfolding no_properties
root-text = refl

own_branch : has_branch root (codes "m") ≡ true
unfolding has_branch bytes_eq
own_branch = refl

head-found : get_last da rooted root_key (codes "m") ≡ ok (some root, root_key)
unfolding toy_codec
head-found =
    (set_root_lem da (local_dag-IsBacked toy toy_codec (codes "test") 8) root root_key start rooted
        root-saved root-text).1
      (codes "m") (λ e. cc) own_branch

next-time : toy.parse_time (codes "2027") ≡ some b'2'
unfolding toy
next-time = refl

verify_node-create_node_example : verify_node da rooted next root_key true ≡ ok tt
unfolding local_dag
verify_node-create_node_example =
    verify_node-create_node da toy-laws rooted 0 b'2' (codes "2027") item root_key root_key
      owner_address key next root root is_owner next-time (λ e. cc) (λ e. cc (e, number))
      root-stored own_branch head-found root-stored next-created

abbrev graph : Graph Memory
graph = record { name = []; meta_data = []; addr = owner_address; da = da }
