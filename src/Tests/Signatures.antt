-- ===== src/Tests/Signatures.antt =====
-- The signatures of nodes at concrete inputs.
use setinstone.Prelude.{◌≡◌, refl, [], ◌∷◌, ◌++◌, some, arith, codes, replicate}
use setinstone.Prelude.Outcome.{ok}
use setinstone.BigInt.{big_bytes}
use setinstone.Hex.{encode_to_string}
use setinstone.Crypto.{padded_pair, left_pad_bytes, sign}
use setinstone.Crypto.RoundTrip.{IsKey}
use setinstone.Address.{full_payload, hash_pub_key, checksum, generate_address_hash}
use setinstone.Address.Base58.{base58_encode}
use setinstone.Address.Base58.RoundTrip.{HasNonZero, after}
use setinstone.Dag.Node.{
  Node, get_bytes_for_signing, verify_signature, sign_node, itoa, get_map_bytes, get_slice_bytes,
  sort_strings,
}
use setinstone.Dag.Accept.{IsSound}
use setinstone.Dag.Local.{local_dag}
use setinstone.Dag.Signing.{verify_signature-cut}
use setinstone.Dag.Signed.{sign_node-IsSound}
use setinstone.Tests.Samples.{toy, toy-laws, key}
use setinstone.Tests.World.{owner, da, root}

pub key-IsKey : IsKey toy key
unfolding toy key
key-IsKey = record { pair = refl; x_fits = omega arith; y_fits = omega arith }

abbrev unsigned : Node
unsigned = record root { signature = [] }

root-signed : sign_node toy 0 key unsigned ≡ ok root
unfolding sign_node sign toy key get_bytes_for_signing itoa get_map_bytes sort_strings
    get_slice_bytes padded_pair left_pad_bytes big_bytes encode_to_string
root-signed = refl

own-key : unsigned.pub_key ≡ encode_to_string (padded_pair key.x key.y)
unfolding key
own-key = refl

payload-HasNonZero : HasNonZero (full_payload toy (padded_pair 5 9))
unfolding toy hash_pub_key checksum padded_pair left_pad_bytes big_bytes
payload-HasNonZero =
    after 1 45 (replicate 19 1 ++ 95 ∷ 1 ∷ 1 ∷ 1 ∷ []) (full_payload toy (padded_pair 5 9))
      (omega arith) refl

own-address : generate_address_hash toy (padded_pair 5 9) ≡ ok owner
unfolding toy hash_pub_key checksum padded_pair left_pad_bytes big_bytes generate_address_hash
    base58_encode
own-address = refl

root-time : toy.parse_time root.timestamp ≡ some b'2'
unfolding toy
root-time = refl

sign_node-IsSound_example : IsSound da root
unfolding local_dag key
sign_node-IsSound_example =
    sign_node-IsSound da toy-laws key 0 b'2' unsigned root key-IsKey payload-HasNonZero own-key
      own-address root-time (omega arith) (λ e. cc) root-signed

verify_signature-cut_example :
    verify_signature toy (record root { previous = codes "ab"; branch = codes "c" })
    ≡ verify_signature toy (record root { previous = codes "a"; branch = codes "bc" })
verify_signature-cut_example = verify_signature-cut toy root (codes "a") (codes "b") (codes "c")
