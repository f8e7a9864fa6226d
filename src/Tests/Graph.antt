-- ===== src/Tests/Graph.antt =====
-- The graph's theorems on the states of a small world.
use setinstone.Prelude.{
  ap, ◌∙◌, ◌≡◌, ◌≢◌, ◌↔◌, refl, ◌∙◌, [], ◌∷◌, ◌++◌, true, none, some, arith, Bytes, bytes_eq,
  bytes_eq_iff, false, codes,
}
use setinstone.Prelude.Outcome.{ok, err, dag_already_initialized}
use setinstone.Hex.{encode_to_string}
use setinstone.Dag.Node.{Node}
use setinstone.Dag.Core.{get_node_by_key, get_last, get_root, get_full_path, has_branch, get_name}
use setinstone.Dag.Verify.{verify_node}
use setinstone.Dag.Write.{append, set_root}
use setinstone.Dag.Laws.{IsBacked}
use setinstone.Dag.Accept.{IsSound, IsNext, verify_node_iff}
use setinstone.Dag.Append.{append_lem, append-refused}
use setinstone.Dag.Root.{set_root_lem}
use setinstone.Dag.Path.{PathTo, top, under, get_full_path_lem}
use setinstone.Dag.Local.{local_dag, local_dag-IsBacked}
use setinstone.Dag.Core
use setinstone.Dag.Local.{Memory}
use setinstone.Graph.{Graph, get_node, translate}
use setinstone.Graph.Iterator.{Iterator, all, all-Chain, end, link}
use setinstone.Tests.Samples.{toy}
use setinstone.Tests.Codec.{toy_codec, no_properties}
use setinstone.Tests.World.{
  owner, da, start, root, root_key, rooted, root-saved, next, next_key, appended, next-saved,
  root-stored,
}

backed : IsBacked da no_properties
unfolding toy_codec
backed = local_dag-IsBacked toy toy_codec (codes "test") 8

keys-differ : root_key ≢ next_key
unfolding encode_to_string bytes_eq
keys-differ e = let same : false ≡ true = (bytes_eq_iff root_key next_key).1 e in cc same

local_dag-IsBacked_example : IsBacked (local_dag toy toy_codec (codes "test") 8) toy_codec.is_text
local_dag-IsBacked_example = local_dag-IsBacked toy toy_codec (codes "test") 8

verify_node_iff_example :
    (verify_node da rooted next root_key true ≡ ok tt)
    ↔ (IsSound da next × IsNext da rooted next root_key)
verify_node_iff_example = verify_node_iff da rooted next root_key

root-text : no_properties root ≡ true
unfolding no_properties
root-text = refl

next-text : no_properties next ≡ true
unfolding no_properties
next-text = refl

set_root_lem_example :
    (get_root da rooted owner ≡ ok (some root, root_key))
    × ((branch : Bytes)
        → branch ≢ []
        → has_branch root branch ≡ true
        → get_last da rooted root_key branch ≡ ok (some root, root_key))
    × ((k : Bytes) → k ≢ root_key → get_node_by_key da rooted k ≡ get_node_by_key da start k)
    × ((m : Node)
        → m.address ≡ owner
        → m.branch ≢ []
        → has_branch m m.branch ≡ true
        → set_root da m rooted ≡ (err dag_already_initialized, rooted))
set_root_lem_example = set_root_lem da backed root root_key start rooted root-saved root-text

append_lem_example :
    (get_node_by_key da appended next_key ≡ ok (some next))
    × (get_last da appended root_key (codes "m") ≡ ok (some next, next_key))
    × ((branch : Bytes)
        → branch ≢ []
        → has_branch next branch ≡ true
        → get_last da appended next_key branch ≡ ok (some next, next_key))
    × ((k : Bytes) → k ≢ next_key → get_node_by_key da appended k ≡ get_node_by_key da rooted k)
append_lem_example =
    append_lem da backed next root_key next_key rooted appended next-saved next-text keys-differ

own_branch : has_branch root (codes "m") ≡ true
unfolding has_branch bytes_eq
own_branch = refl

branch_named : codes "m" ≢ []
branch_named e = cc

-- A node without a sequence number.
abbrev unnumbered : Node
unnumbered = record next { seq = 0 }

append-refused_example :
    ((append da unnumbered root_key rooted).1 ≡ rooted)
    × ((k : Bytes) → (append da unnumbered root_key rooted).0 ≢ ok k)
append-refused_example =
    append-refused da unnumbered root_key rooted (λ (sound, _). sound.seq_counts refl)

root_key_filled : root_key ≢ []
unfolding encode_to_string
root_key_filled e = cc

next_key_filled : next_key ≢ []
unfolding encode_to_string
next_key_filled e = cc

abbrev next_path : Bytes
next_path =
    get_name da owner (root_key ∷ [])
    ++ (codes "/branches/" ++ (codes "m" ++ (codes "/" ++ next_key)))

next-path : PathTo da appended 1 next_key next_path
next-path =
    under 0 next_key next_path (get_name da owner (root_key ∷ [])) next next_key_filled
      (append_lem da backed next root_key next_key rooted appended next-saved next-text
        keys-differ).0
      root_key_filled
      (top root_key (get_name da owner (root_key ∷ [])) root root_key_filled
        ((append_lem da backed next root_key next_key rooted appended next-saved next-text
              keys-differ).3
            root_key keys-differ
          ∙ root-stored)
        refl refl)
      refl

get_full_path_lem_example : get_full_path da 2 appended next_key ≡ ok (next_path, none)
get_full_path_lem_example =
    get_full_path_lem da appended 1 2 next_key next_path next-path (omega arith)

abbrev timeline : Graph Memory
timeline = record {
  name = [];
  meta_data = [];
  addr = record { keys = none; address = owner };
  da = da;
}

abbrev walker : Iterator
walker = record { start = []; key_root = root_key; branch = codes "m"; previous = [] }

root-read : get_node timeline appended root_key ≡ ok (some root)
unfolding get_node Core.get translate
root-read = ap translate (
    (append_lem da backed next root_key next_key rooted appended next-saved next-text keys-differ).3
      root_key keys-differ
    ∙ root-stored)

all-Chain_example :
    all timeline appended 3 walker
    ≡ ok (record { key = next_key; node = next } ∷ record { key = root_key; node = root } ∷ [])
all-Chain_example =
    all-Chain timeline appended walker next next_key 1 3
      (record { key = root_key; node = root } ∷ []) refl root_key_filled
      (append_lem da backed next root_key next_key rooted appended next-saved next-text
        keys-differ).1
      (link root_key root 0 [] root_key_filled root-read end) (omega arith)
