-- ===== src/Dag/Node.antt =====
-- dag/node.go and dag/util.go: a node, the bytes that are signed, and its signature.
use setinstone.Prelude.{
  ℕ, ◌+◌, ◌-◌, ◌^◌, List, [], ◌∷◌, ◌++◌, map, reverse, Bool, true, false, Option, none, some, Bytes,
  ◌==◌, ltb, if◌then◌else◌,
}
use setinstone.Prelude.Assoc.{Assoc, lookup}
use setinstone.Prelude.Outcome.{
  Outcome, ok, err, unable_to_decode_node_signature, unable_to_decode_node_pub_key,
  node_signature_does_not_match, ◌>>=◌,
}
use setinstone.BigInt.{le_digits}
use setinstone.Primitives.{Primitives, EcdsaKey}
use setinstone.Hex.{encode_to_string, decode_string}
use setinstone.Crypto
use setinstone.Crypto.{sign}

-- `seq` is the bit pattern of an int32, below 2^32. `payload` is the field Data.
pub record Node : Type 0 where
  pub seq : ℕ
  pub timestamp : Bytes
  pub address : Bytes
  pub previous : Bytes
  pub branch : Bytes
  pub branch_root : Bytes
  pub properties : Assoc Bytes
  pub branches : List Bytes
  pub payload : Bytes
  pub pub_key : Bytes
  pub signature : Bytes

decimal : ℕ → Bytes
unfolding le_digits
decimal n = if n == 0 then b'0' ∷ [] else map (λ d. b'0' + d) (reverse (le_digits 10 n n))

-- `strconv.Itoa(int(seq))`
unfoldable pub itoa : ℕ → Bytes
unfolding decimal
itoa w = if ltb w (2 ^ 31) then decimal w else b'-' ∷ decimal (2 ^ 32 - w)

-- `a <= b` on strings: by bytes, and a prefix comes first.
unfoldable pub string_le : Bytes → Bytes → Bool
string_le [] b = true
string_le (x ∷ a) [] = false
string_le (x ∷ a) (y ∷ b) = if ltb x y then true else if x == y then string_le a b else false

-- `sort.Strings`: the sorted list of the keys, which are distinct.
unfoldable pub insert_sorted : Bytes → List Bytes → List Bytes
unfolding string_le
insert_sorted k [] = k ∷ []
insert_sorted k (j ∷ ks) = if string_le k j then k ∷ j ∷ ks else j ∷ insert_sorted k ks

unfoldable pub sort_strings : List Bytes → List Bytes
unfolding insert_sorted
sort_strings [] = []
sort_strings (k ∷ ks) = insert_sorted k (sort_strings ks)

unfoldable pub or_empty : Option Bytes → Bytes
or_empty none = []
or_empty (some s) = s

unfoldable pub entry_bytes : Assoc Bytes → List Bytes → Bytes
entry_bytes m [] = []
entry_bytes m (k ∷ ks) = k ++ or_empty (lookup k m) ++ entry_bytes m ks

unfoldable pub keys : Assoc Bytes → List Bytes
keys [] = []
keys ((k, v) ∷ m) = k ∷ keys m

-- The entries of the list stand in the order in which Go's map happens to be walked.
unfoldable pub get_map_bytes : Assoc Bytes → Bytes
unfolding entry_bytes keys or_empty
get_map_bytes m = entry_bytes m (sort_strings (keys m))

unfoldable pub get_slice_bytes : List Bytes → Bytes
get_slice_bytes [] = []
get_slice_bytes (s ∷ rest) = s ++ get_slice_bytes rest

unfoldable pub get_bytes_for_signing : Node → Bytes
get_bytes_for_signing n =
    itoa n.seq
    ++ n.timestamp
    ++ n.address
    ++ n.previous
    ++ n.branch
    ++ get_map_bytes n.properties
    ++ get_slice_bytes n.branches
    ++ n.payload

module _ (p : Primitives) where
  -- The receiver is written: the signed node is returned. `seed` is the randomness of ecdsa.Sign.
  unfoldable pub sign_node : ℕ → EcdsaKey → Node → Outcome Node
  sign_node seed key n = do
    s ← sign p seed (p.sha256 (get_bytes_for_signing n)) key
    ok (record n { signature = encode_to_string s })

  unfoldable pub verify_signature : Node → Outcome (Unit {0})
  verify_signature n =
      let (sig, sig_good) = decode_string n.signature in
      let (pub_key, key_good) = decode_string n.pub_key in
      if sig_good
      then if key_good
        then if Crypto.verify_signature p sig pub_key (p.sha256 (get_bytes_for_signing n))
          then ok tt
          else err node_signature_does_not_match
        else err unable_to_decode_node_pub_key
      else err unable_to_decode_node_signature
