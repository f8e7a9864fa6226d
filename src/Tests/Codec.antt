-- ===== src/Tests/Codec.antt =====
-- An encoding of nodes without properties, in place of encoding/json: the fields in a row, each with
-- its length in front.
use setinstone.Prelude.{
  ℕ, zero, suc, ◌≡◌, ◌≢◌, refl, sym, ap, ◌∙◌, List, [], ◌∷◌, ◌++◌, Bool, true, false, Bytes, length,
  take, drop, take-length_append, drop-length_append,
}
use setinstone.Prelude.Assoc.{Assoc}
use setinstone.Prelude.Outcome.{Outcome, ok, err, other}
use setinstone.Dag.Node.{Node}
use setinstone.Dag.Local.{Codec}

field : Bytes → Bytes → Bytes
field s rest = length s ∷ s ++ rest

fields : List Bytes → Bytes
unfolding field
fields [] = []
fields (b ∷ bs) = field b (fields bs)

-- A reader of one field, and of a number of them.
with_field : (Bytes → Bytes → Outcome Node) → Bytes → Outcome Node
with_field f [] = err (other 1)
with_field f (n ∷ s) = f (take n s) (drop n s)

read_fields : ℕ → Bytes → List Bytes
read_fields zero s = []
read_fields (suc k) [] = []
read_fields (suc k) (n ∷ s) = take n s ∷ read_fields k (drop n s)

count : List Bytes → ℕ
count [] = 0
count (b ∷ bs) = suc (count bs)

with_field_lem :
    (f : Bytes → Bytes → Outcome Node) (s rest : Bytes) → with_field f (field s rest) ≡ f s rest
unfolding field with_field
with_field_lem f s rest =
    rw (take-length_append (length s) s rest refl, drop-length_append (length s) s rest refl)

read_fields_lem : (bs : List Bytes) → read_fields (count bs) (fields bs) ≡ bs
unfolding read_fields count fields field
read_fields_lem [] = refl
read_fields_lem (b ∷ bs) = rw (
  take-length_append (length b) b (fields bs) refl,
  drop-length_append (length b) b (fields bs) refl,
  read_fields_lem bs,
)

pub write : Node → Bytes
unfolding count
write n =
    n.seq
    ∷ count n.branches
    ∷ field n.timestamp (
        field n.address (
          field n.previous (
            field n.branch (
              field n.branch_root
                (field n.payload (field n.pub_key (field n.signature (fields n.branches))))))))

pub read : Bytes → Outcome Node
read [] = err (other 1)
read (seq ∷ []) = err (other 1)
read (seq ∷ k ∷ s) =
    with_field
      (λ timestamp. with_field (λ address. with_field (λ previous. with_field (λ branch.
        with_field (λ branch_root. with_field (λ payload. with_field (λ pub_key.
          with_field (λ signature rest. ok (record {
            seq = seq;
            timestamp = timestamp;
            address = address;
            previous = previous;
            branch = branch;
            branch_root = branch_root;
            properties = [];
            branches = read_fields k rest;
            payload = payload;
            pub_key = pub_key;
            signature = signature;
          })))))))))
      s

pub read-write : (n : Node) → read (write n) ≡ ok (record n { properties = [] })
unfolding read write
read-write n = simp (with_field_lem, read_fields_lem)

unfoldable pub no_properties : Node → Bool
no_properties n = elim n.properties [ [] ↦ true | _ ∷ _ ↦ false ]

pub without_properties : (n : Node) → no_properties n ≡ true → record n { properties = [] } ≡ n
unfolding no_properties
without_properties n h = on_list n.properties h
  where
    on_list :
        (m : Assoc Bytes)
        → (elim m [ [] ↦ true | _ ∷ _ ↦ false ]) ≡ true
        → record n { properties = [] } ≡ record n { properties = m }
    on_list [] e = refl
    on_list (_ ∷ _) e = cc

pub write-cons : (n : Node) → write n ≢ []
unfolding write
write-cons n e = cc

unfoldable pub toy_codec : Codec
unfolding write read no_properties field fields with_field read_fields
toy_codec = record {
  to_json = λ n. ok (write n);
  from_json = read;
  is_text = no_properties;
  json_round = λ n b text e.
      let same : write n ≡ b = cc e in
      (
        ap read (sym same) ∙ read-write n ∙ ap ok (without_properties n text),
        λ q. write-cons n (same ∙ q),
      );
}
