-- ===== src/Tests/Progress.antt =====
-- What succeeds, at concrete inputs.
use setinstone.Prelude.{◌≡◌, ◌≢◌, refl, [], ◌∷◌, ◌++◌, none, arith, Bytes, bytes_eq, codes}
use setinstone.Prelude.Outcome.{ok}
use setinstone.Address.{is_valid, checksum}
use setinstone.Address.Base58.{base58_decode}
use setinstone.Hex.{encode_to_string}
use setinstone.Message.{query, query_name_request}
use setinstone.Resolver.{get_query_name_request_from_name}
use setinstone.Resolver.Names.{IsPlain, get_query_name_request_from_name_lem}
use setinstone.Dag.Core.{get_name, get_full_path}
use setinstone.Dag.Write.{append}
use setinstone.Dag.Accept.{verify_node_iff}
use setinstone.Dag.Path.{top, get_full_path_lem}
use setinstone.Dag.Local.{Memory, local_dag}
use setinstone.Dag.Progress.{append-ok}
use setinstone.Dag.Open.{IsManaged, local_dag-IsOpen}
use setinstone.Tests.Samples.{toy}
use setinstone.Tests.Codec.{toy_codec, write}
use setinstone.Tests.World.{
  owner, da, managed_address, root, root_key, rooted, root-stored, root-managed, next,
  next-verified,
}

owner-IsPlain : IsPlain b'/' owner
owner-IsPlain = omega arith

owner-valid : is_valid toy owner ≡ ok tt
unfolding is_valid base58_decode checksum toy bytes_eq
owner-valid = refl

get_query_name_request_from_name_lem_example :
    get_query_name_request_from_name toy (b'/' ∷ owner ++ b'/' ∷ codes "n")
    ≡ ok (record {
      timestamp = [];
      address = owner;
      message_type = query_name_request;
      payload = query (b'/' ∷ owner ++ b'/' ∷ codes "n") [];
      public_key = [];
      signature = [];
    })
get_query_name_request_from_name_lem_example =
    get_query_name_request_from_name_lem toy owner (codes "n") owner-IsPlain owner-valid

root_key_filled : root_key ≢ []
unfolding encode_to_string
root_key_filled e = cc

root-path : get_full_path da 8 rooted root_key ≡ ok (get_name da owner (root_key ∷ []), none)
root-path =
    get_full_path_lem da rooted 0 8 root_key (get_name da owner (root_key ∷ []))
      (top root_key (get_name da owner (root_key ∷ [])) root root_key_filled root-stored refl refl)
      (omega arith)

next-written : da.to_json next ≡ ok (write next)
unfolding local_dag toy_codec
next-written = refl

append-ok_example :
    (key : Bytes) × (s' : Memory) × (append da next root_key rooted ≡ (ok key, s'))
    × IsManaged owner managed_address s'
unfolding local_dag
append-ok_example =
    append-ok da (IsManaged owner managed_address) next root root_key (write next)
      (get_name da owner (root_key ∷ [])) none rooted
      (local_dag-IsOpen toy toy_codec (codes "test") 8 owner managed_address owner-IsPlain
        owner-valid)
      root-managed ((verify_node_iff da rooted next root_key).0 next-verified).0
      ((verify_node_iff da rooted next root_key).0 next-verified).1 root-stored refl root-path
      next-written
