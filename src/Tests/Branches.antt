-- ===== src/Tests/Branches.antt =====
-- Two branches of an owner at concrete inputs.
use setinstone.Prelude.{
  ◌≡◌, ◌≢◌, refl, [], ◌∷◌, ◌++◌, true, false, arith, Bytes, List, bytes_eq, bytes_eq_iff, codes,
  replicate,
}
use setinstone.Prelude.Action
use setinstone.Prelude.Assoc.{insert, lookup}
use setinstone.Prelude.Outcome.{ok}
use setinstone.BigInt.{big_bytes, set_bytes}
use setinstone.Hex.{encode_to_string, decode_string}
use setinstone.Crypto
use setinstone.Crypto.{padded_pair, left_pad_bytes, halves}
use setinstone.Address.{is_valid, checksum, matches_pub_key, generate_address_hash, hash_pub_key}
use setinstone.Address.Base58.{base58_encode, base58_decode}
use setinstone.DataStore.Local
use setinstone.Resolver.{get_query_name_request_from_name, split}
use setinstone.Resolver.Local.{resolve, add}
use setinstone.Dag.Node.{
  Node, verify_signature, get_bytes_for_signing, itoa, get_map_bytes, get_slice_bytes, sort_strings,
}
use setinstone.Dag.Core.{
  translate, get_last, get_node_by_key, get_root, get_root_node_name, get_last_node_name, get_name,
  has_branch, resolve_node_key, join, read_loop, get_full_path,
}
use setinstone.Dag.Verify.{
  verify_address, verify_time_stamp, verify_new, verify_head, verify_node, next_seq,
}
use setinstone.Dag.Write.{
  set_root, save_root_node, append, save_node, add_resolution_for_node_branches, add_resolutions,
}
use setinstone.Dag.Local.{Memory, local_dag, local_dag-IsBacked}
use setinstone.Dag.Laws.{IsBacked}
use setinstone.Dag.History.{Timeline}
use setinstone.Dag.Branches.{IsHead, append-IsHead_self, append-IsHead}
use setinstone.Dag.Names.{IsPart}
use setinstone.Dag.Timelines.{Call, Calls, nothing, more, set_root-Timelines, on_branch}
use setinstone.Tests.Samples.{toy}
use setinstone.Tests.Codec.{toy_codec, no_properties}
use setinstone.Tests.World.{
  owner, owner_key, da, start, root, root_key, root-saved, root-stored, rooted, next, next_key,
  next-saved, appended,
}

-- A node on a branch of the second node.
abbrev side : Node
side = record {
  seq = 1;
  timestamp = codes "2028";
  address = owner;
  previous = next_key;
  branch = codes "c";
  branch_root = next_key;
  properties = [];
  branches = [];
  payload = codes "side";
  pub_key = owner_key;
  signature = encode_to_string (padded_pair 5 237);
}

abbrev side_key : Bytes
side_key = encode_to_string (234 ∷ replicate 31 1)

abbrev branched : Memory
branched = (append da side next_key appended).1

side-saved : append da side next_key appended ≡ (ok side_key, branched)
unfolding append save_node get_last get_full_path verify_node verify_signature
    Crypto.verify_signature halves set_bytes decode_string get_bytes_for_signing matches_pub_key
    generate_address_hash hash_pub_key base58_encode set_root save_root_node get_root
    get_node_by_key has_branch get_root_node_name get_last_node_name get_name
    add_resolution_for_node_branches local_dag Local.put resolve add
    get_query_name_request_from_name split is_valid base58_decode checksum encode_to_string
    padded_pair left_pad_bytes big_bytes toy toy_codec Local.key_of bytes_eq translate
    resolve_node_key join lookup Action.◌>>=◌ add_resolutions verify_address verify_time_stamp itoa
    get_map_bytes sort_strings get_slice_bytes Local.get insert read_loop Local.new_reader
    verify_new verify_head next_seq
side-saved = refl

backed : IsBacked da no_properties
unfolding no_properties toy_codec
backed = local_dag-IsBacked toy toy_codec (codes "test") 8

next-text : no_properties next ≡ true
unfolding no_properties
next-text = refl

side-text : no_properties side ≡ true
unfolding no_properties
side-text = refl

root-text : no_properties root ≡ true
unfolding no_properties
root-text = refl

differ : (a b : Bytes) → bytes_eq a b ≡ false → a ≢ b
differ a b h e = cc (h, (bytes_eq_iff a b).1 e)

root-next : root_key ≢ next_key
root-next = differ root_key next_key (unfold bytes_eq encode_to_string in refl)

root-side : root_key ≢ side_key
root-side = differ root_key side_key (unfold bytes_eq encode_to_string in refl)

next-side : next_key ≢ side_key
next-side = differ next_key side_key (unfold bytes_eq encode_to_string in refl)

owner-IsPart : IsPart owner
owner-IsPart = omega arith

root-IsPart : IsPart root_key
unfolding encode_to_string
root-IsPart = omega arith

next-IsPart : IsPart next_key
unfolding encode_to_string
next-IsPart = omega arith

side-IsPart : IsPart side_key
unfolding encode_to_string
side-IsPart = omega arith

next-IsHead : IsHead da appended root_key (codes "m") next_key root next
next-IsHead =
    append-IsHead_self da backed next root root_key next_key rooted appended next-saved next-text
      root-next root-stored

-- The head of the first branch is not touched by the append to the other one.
append-IsHead_example : IsHead da branched root_key (codes "m") next_key root next
append-IsHead_example =
    append-IsHead da backed side next root next next_key side_key root_key (codes "m") next_key
      appended branched side-saved next-IsHead.read next-IsHead (λ q. root-next q.0) root-side
      next-side owner-IsPart owner-IsPart owner-IsPart next-IsPart side-IsPart root-IsPart

abbrev calls : List Call
calls =
    record { under = next_key; key = side_key; node = side }
    ∷ record { under = root_key; key = next_key; node = next }
    ∷ []

calls-made : Calls da root_key no_properties rooted branched calls
calls-made =
    more appended branched side next next_key side_key _
      (more rooted appended next root root_key next_key [] nothing next-saved next-text root-stored
        root-next (root-next, tt) owner-IsPart owner-IsPart root-IsPart next-IsPart)
      side-saved side-text next-IsHead.read next-side (root-side, (next-side, tt)) owner-IsPart
      owner-IsPart next-IsPart side-IsPart

own_branch : has_branch root (codes "m") ≡ true
unfolding has_branch bytes_eq
own_branch = refl

set_root-Timelines_example :
    (key : Bytes) × (n : Node) × (rest : List (Bytes × Node)) × (on_branch root_key
          (codes "m")
          calls
        ++ (root_key, root) ∷ []
      ≡ (key, n) ∷ rest)
    × Timeline da root_key (codes "m") branched key n rest
set_root-Timelines_example =
    set_root-Timelines da backed root root_key (codes "m") start rooted branched calls root-saved
      root-text owner-IsPart root-IsPart calls-made (λ e. cc) own_branch
