-- ===== src/Dag/Signing.antt =====
-- dag/node.go and dag/util.go: the bytes that are signed.
use mathlib.Core.List.{Perm, Permᴰ}
use mathlib.Core.Logic.{∥∥₁_elim}
use native.Mathlib.Nat.{ℕ_set}
use setinstone.Prelude.{
  ◌≡◌, refl, sym, ap, ◌∙◌, subst, List, [], ◌∷◌, ◌++◌, true, false, some, none, Bytes, bytes_eq,
  bytes_eq_iff, if◌then◌else◌, arith, append_assoc,
}
use setinstone.Prelude.Assoc.{Assoc, lookup}
use setinstone.Dag.Node.{
  Node, string_le, insert_sorted, sort_strings, keys, or_empty, entry_bytes, get_map_bytes,
  get_bytes_for_signing, verify_signature, itoa, get_slice_bytes,
}
use setinstone.Prelude.Outcome.{
  Outcome, ok, err, unable_to_decode_node_signature, unable_to_decode_node_pub_key,
  node_signature_does_not_match,
}
use setinstone.Hex.{decode_string}
use setinstone.Crypto
use setinstone.Primitives.{Primitives}

string_le_total : (a b : Bytes) → string_le a b ≡ false → string_le b a ≡ true
unfolding string_le
string_le_total [] b h = cc
string_le_total (x ∷ a) [] h = refl
string_le_total (x ∷ a) (y ∷ b) h = ground (arith, string_le_total a b)

string_le_antisym : (a b : Bytes) → string_le a b ≡ true → string_le b a ≡ true → a ≡ b
unfolding string_le
string_le_antisym [] [] h k = refl
string_le_antisym [] (y ∷ b) h k = cc
string_le_antisym (x ∷ a) [] h k = cc
string_le_antisym (x ∷ a) (y ∷ b) h k = ground (arith, string_le_antisym a b)

string_le_trans :
    (a b c : Bytes) → string_le a b ≡ true → string_le b c ≡ true → string_le a c ≡ true
unfolding string_le
string_le_trans [] b c h k = refl
string_le_trans (x ∷ a) [] c h k = cc
string_le_trans (x ∷ a) (y ∷ b) [] h k = cc
string_le_trans (x ∷ a) (y ∷ b) (z ∷ c) h k = ground (arith, string_le_trans a b c)

-- Two insertions may change places, in any list.
insert_sorted_comm :
    (a b : Bytes) (l : List Bytes)
    → insert_sorted a (insert_sorted b l) ≡ insert_sorted b (insert_sorted a l)
unfolding insert_sorted
insert_sorted_comm a b [] =
    ground (arith, string_le_total a b, string_le_total b a, string_le_antisym a b)
insert_sorted_comm a b (c ∷ l) = ground (
  arith,
  string_le_total a b,
  string_le_total b a,
  string_le_antisym a b,
  string_le_trans a b c,
  string_le_trans b a c,
  insert_sorted_comm a b l,
)

abbrev pub HasDistinctKeys : Assoc Bytes → Type 0
HasDistinctKeys [] = Unit
HasDistinctKeys ((k, v) ∷ m) = (lookup k m ≡ none) × HasDistinctKeys m

sort-keys_perm : {m m' : Assoc Bytes} → Permᴰ m m' → sort_strings (keys m) ≡ sort_strings (keys m')
unfolding sort_strings keys
sort-keys_perm Permᴰ.nil = refl
sort-keys_perm (Permᴰ.cons e h) = λ i. insert_sorted (e i).0 (sort-keys_perm h i)
sort-keys_perm (Permᴰ.swap {a = a} {b = b} {l = l} e f) =
    insert_sorted_comm a.0 b.0 (sort_strings (keys l))
    ∙ (λ i. insert_sorted (f i).0 (insert_sorted (e i).0 (sort_strings (keys l))))
sort-keys_perm (Permᴰ.trans h k) = sort-keys_perm h ∙ sort-keys_perm k

abbrev SameEntries : Assoc Bytes → Assoc Bytes → Type 0
SameEntries m m' = HasDistinctKeys m' × ((k : Bytes) → lookup k m ≡ lookup k m')

swap_entries :
    (j v k w : Bytes) (l : Assoc Bytes)
    → HasDistinctKeys ((j, v) ∷ (k, w) ∷ l)
    → SameEntries ((j, v) ∷ (k, w) ∷ l) ((k, w) ∷ (j, v) ∷ l)
unfolding lookup
swap_entries j v k w l d = (
  ground (arith, bytes_eq_iff j k, bytes_eq_iff k j),
  λ i. ground (arith, bytes_eq_iff j k, bytes_eq_iff k j, bytes_eq_iff j i, bytes_eq_iff k i),
)

-- Two orders of a map with distinct keys hold the same entries.
lookup-perm : {m m' : Assoc Bytes} → Permᴰ m m' → HasDistinctKeys m → SameEntries m m'
unfolding lookup
lookup-perm Permᴰ.nil d = (tt, λ k. refl)
lookup-perm (Permᴰ.cons {a = a} {b = b} {l₁ = l} {l₂ = r} e h) d =
    let (rest, same) = lookup-perm h d.1 in
    (
      (sym (same b.0) ∙ ap (λ (c : Bytes × Bytes). lookup c.0 l) (sym e) ∙ d.0, rest),
      λ k i. if bytes_eq (e i).0 k then some (e i).1 else same k i,
    )
lookup-perm (Permᴰ.swap {a = a} {b = b} {l = l} e f) d =
    subst (SameEntries (a ∷ b ∷ l)) (λ i. f i ∷ e i ∷ l) (swap_entries a.0 a.1 b.0 b.1 l d)
lookup-perm (Permᴰ.trans h k) d =
    let (d1, same) = lookup-perm h d in
    let (d2, same') = lookup-perm k d1 in (d2, λ j. same j ∙ same' j)

entry_bytes-same :
    (m m' : Assoc Bytes) (ks : List Bytes)
    → ((k : Bytes) → lookup k m ≡ lookup k m')
    → entry_bytes m ks ≡ entry_bytes m' ks
unfolding entry_bytes
entry_bytes-same m m' [] same = refl
entry_bytes-same m m' (k ∷ ks) same =
    λ i. k ++ or_empty (same k i) ++ entry_bytes-same m m' ks same i

get_map_bytes-perm :
    (m m' : Assoc Bytes) → HasDistinctKeys m → Permᴰ m m' → get_map_bytes m ≡ get_map_bytes m'
unfolding get_map_bytes
get_map_bytes-perm m m' d h =
    let (_, same) = lookup-perm h d in
    entry_bytes-same m m' (sort_strings (keys m)) same ∙ ap (entry_bytes m') (sort-keys_perm h)

Bytes-set : IsSet Bytes
Bytes-set = hlevel ℕ_set

-- A node whose properties have distinct keys has one text to sign, whatever the order in which its
-- properties are walked.
pub get_bytes_for_signing-perm :
    (n : Node) (properties : Assoc Bytes)
    → HasDistinctKeys n.properties
    → Perm n.properties properties
    → get_bytes_for_signing (record n { properties = properties }) ≡ get_bytes_for_signing n
unfolding get_bytes_for_signing
get_bytes_for_signing-perm n properties d h = ∥∥₁_elim h (Bytes-set _ _) λ g.
    let same : get_map_bytes properties ≡ get_map_bytes n.properties =
      sym (get_map_bytes-perm n.properties properties d g) in
    λ i.
      itoa n.seq
      ++ n.timestamp
      ++ n.address
      ++ n.previous
      ++ n.branch
      ++ same i
      ++ get_slice_bytes n.branches
      ++ n.payload

-- The key of the branch root is not signed: any other can be put in its place.
pub verify_signature-branch_root :
    (p : Primitives) (n : Node) (root : Bytes)
    → verify_signature p (record n { branch_root = root }) ≡ verify_signature p n
unfolding verify_signature get_bytes_for_signing
verify_signature-branch_root p n root = refl

-- What `VerifySignature` reads of a node: two fields and the text to sign.
verify_text : Primitives → Bytes → Bytes → Bytes → Outcome (Unit {0})
verify_text p signature pub_key text =
    let (sig, sig_good) = decode_string signature in
    let (key, key_good) = decode_string pub_key in
    if sig_good
    then if key_good
      then if Crypto.verify_signature p sig key (p.sha256 text)
        then ok tt
        else err node_signature_does_not_match
      else err unable_to_decode_node_pub_key
    else err unable_to_decode_node_signature

-- A node has the same outcome of `VerifySignature` when bytes move from the end of its previous key
-- to the front of its branch: the fields are joined with nothing between them.
pub verify_signature-cut :
    (p : Primitives) (n : Node) (a b c : Bytes)
    → verify_signature p (record n { previous = a ++ b; branch = c })
      ≡ verify_signature p (record n { previous = a; branch = b ++ c })
unfolding verify_signature get_bytes_for_signing verify_text
verify_signature-cut p n a b c =
    let before : Bytes = itoa n.seq ++ n.timestamp ++ n.address in
    let cut : before ++ (a ++ b) ++ c ≡ before ++ a ++ (b ++ c) = simp append_assoc in
    ap
      (λ t.
        verify_text p n.signature n.pub_key
          (t ++ get_map_bytes n.properties ++ get_slice_bytes n.branches ++ n.payload))
      cut
