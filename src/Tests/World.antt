-- ===== src/Tests/World.antt =====
-- A root and a node behind it, over the store and the resolver in memory.
use setinstone.Prelude.{true, bytes_eq, ◌≡◌, refl, [], ◌∷◌, some, Bytes, codes, replicate}
use setinstone.Prelude.Outcome.{ok}
use setinstone.Prelude.Action
use setinstone.Prelude.Assoc.{lookup, insert}
use setinstone.BigInt.{big_bytes, set_bytes}
use setinstone.Hex.{encode_to_string, decode_string}
use setinstone.Crypto
use setinstone.Crypto.{padded_pair, left_pad_bytes, sign, halves}
use setinstone.Address.{
  Address, is_valid, matches_pub_key, hash_pub_key, checksum, generate_address_hash,
}
use setinstone.Address.Base58.{base58_encode, base58_decode}
use setinstone.DataStore.Local
use setinstone.Resolver.{get_query_name_request_from_name, split}
use setinstone.Resolver.Local.{new_local_resolver, resolve, add}
use setinstone.Dag.Node.{
  Node, get_bytes_for_signing, verify_signature, itoa, get_map_bytes, sort_strings, get_slice_bytes,
}
use setinstone.Dag.Core.{
  Dag, get_node_by_key, get_last, get_root, get_full_path, has_branch, get_root_node_name,
  get_last_node_name, get_name, join, translate, resolve_node_key, read_loop,
}
use setinstone.Dag.Verify.{
  verify_address, verify_time_stamp, verify_new, verify_head, next_seq, verify_node,
}
use setinstone.Dag.Write.{
  append, set_root, save_node, save_root_node, add_resolution_for_node_branches, add_resolutions,
}
use setinstone.Dag.Local.{Memory, local_dag}
use setinstone.Tests.Samples.{toy}
use setinstone.Tests.Codec.{toy_codec}

abbrev pub owner : Bytes
owner = codes "156xcPPiPtFtZSbe8KTm4SNhBVdpZPbVxk"

abbrev pub owner_key : Bytes
owner_key = encode_to_string (padded_pair 5 9)

abbrev pub da : Dag Memory
da = local_dag toy toy_codec (codes "test") 8

abbrev pub managed_address : Address
managed_address = record {
  keys = some (record { private_key = codes "05"; public_key = owner_key });
  address = owner;
}

-- The owner is managed, and nothing is stored.
abbrev pub start : Memory
start = record {
  kept = Local.new_local_file_store;
  known = record new_local_resolver { addresses = (owner, managed_address) ∷ [] };
}

abbrev pub root : Node
root = record {
  seq = 1;
  timestamp = codes "2026";
  address = owner;
  previous = [];
  branch = codes "m";
  branch_root = [];
  properties = [];
  branches = codes "m" ∷ [];
  payload = codes "root";
  pub_key = owner_key;
  signature = encode_to_string (padded_pair 5 92);
}

abbrev pub root_key : Bytes
root_key = encode_to_string (133 ∷ replicate 31 1)

abbrev pub rooted : Memory
rooted = (set_root da root start).1

pub root-saved : set_root da root start ≡ (ok root_key, rooted)
unfolding set_root save_root_node get_root get_node_by_key has_branch get_root_node_name
    get_last_node_name get_name add_resolution_for_node_branches local_dag Local.put resolve add
    get_query_name_request_from_name split is_valid base58_decode checksum encode_to_string
    padded_pair left_pad_bytes big_bytes toy toy_codec Local.key_of bytes_eq translate
    resolve_node_key join lookup Action.◌>>=◌ add_resolutions
root-saved = refl

abbrev pub next : Node
next = record {
  seq = 2;
  timestamp = codes "2027";
  address = owner;
  previous = root_key;
  branch = codes "m";
  branch_root = root_key;
  properties = [];
  branches = codes "c" ∷ [];
  payload = codes "next";
  pub_key = owner_key;
  signature = encode_to_string (padded_pair 5 123);
}

abbrev pub next_key : Bytes
next_key = encode_to_string (81 ∷ replicate 31 1)

abbrev pub appended : Memory
appended = (append da next root_key rooted).1

pub next-saved : append da next root_key rooted ≡ (ok next_key, appended)
unfolding append save_node get_last get_full_path verify_node verify_signature
    Crypto.verify_signature halves set_bytes decode_string get_bytes_for_signing matches_pub_key
    generate_address_hash hash_pub_key base58_encode set_root save_root_node get_root
    get_node_by_key has_branch get_root_node_name get_last_node_name get_name
    add_resolution_for_node_branches local_dag Local.put resolve add
    get_query_name_request_from_name split is_valid base58_decode checksum encode_to_string
    padded_pair left_pad_bytes big_bytes toy toy_codec Local.key_of bytes_eq translate
    resolve_node_key join lookup Action.◌>>=◌ add_resolutions verify_address verify_time_stamp itoa
    get_map_bytes sort_strings get_slice_bytes Local.get insert read_loop Local.new_reader
    verify_new verify_head next_seq
next-saved = refl

pub root-stored : get_node_by_key da rooted root_key ≡ ok (some root)
unfolding set_root save_root_node get_root get_node_by_key has_branch get_root_node_name
    get_last_node_name get_name add_resolution_for_node_branches local_dag Local.put resolve add
    get_query_name_request_from_name split is_valid base58_decode checksum encode_to_string
    padded_pair left_pad_bytes big_bytes toy toy_codec Local.key_of bytes_eq translate
    resolve_node_key join lookup Action.◌>>=◌ add_resolutions Local.get insert read_loop
    Local.new_reader
root-stored = refl

pub root-managed : lookup owner rooted.known.addresses ≡ some managed_address
unfolding set_root save_root_node get_root get_node_by_key has_branch get_root_node_name
    get_last_node_name get_name add_resolution_for_node_branches local_dag Local.put resolve add
    get_query_name_request_from_name split is_valid base58_decode checksum encode_to_string
    padded_pair left_pad_bytes big_bytes toy toy_codec Local.key_of bytes_eq translate
    resolve_node_key join lookup Action.◌>>=◌ add_resolutions
root-managed = refl

pub next-verified : verify_node da rooted next root_key true ≡ ok tt
unfolding get_last verify_node verify_signature Crypto.verify_signature halves set_bytes
    decode_string get_bytes_for_signing matches_pub_key generate_address_hash hash_pub_key
    base58_encode set_root save_root_node get_root get_node_by_key has_branch get_root_node_name
    get_last_node_name get_name add_resolution_for_node_branches local_dag Local.put resolve add
    get_query_name_request_from_name split is_valid base58_decode checksum encode_to_string
    padded_pair left_pad_bytes big_bytes toy toy_codec Local.key_of bytes_eq translate
    resolve_node_key join lookup Action.◌>>=◌ add_resolutions verify_address verify_time_stamp itoa
    get_map_bytes sort_strings get_slice_bytes Local.get insert read_loop Local.new_reader
    verify_new verify_head next_seq
next-verified = refl
