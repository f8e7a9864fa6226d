-- ===== src/Resolver/Names.antt =====
-- resolver/resolver.go: the names that the graph gives.
use setinstone.Prelude.{
  ℕ, ◌≤◌, ◌≡◌, ◌≢◌, refl, sym, ap, ◌∙◌, append-nil, append_assoc, [], ◌∷◌, ◌++◌, Bool, true, false,
  Bool-cases, if◌then◌else◌, get_elem?, inl, inr, arith, Bytes, length, ltb, ◌==◌, ==_iff, All,
}
use setinstone.Prelude.Outcome.{Outcome, ok, err, panic, invalid_name}
use setinstone.Primitives.{Primitives}
use setinstone.Address.{is_valid}
use setinstone.Message.{Message, query, query_name_request}
use setinstone.Resolver.{split_from, split, checked, or_empty, get_query_name_request_from_name}

-- A text without the byte of the separator.
abbrev pub IsPlain : ℕ → Bytes → Type 0
IsPlain sep = All (λ c. c ≢ sep)

split_from-part :
    (sep : ℕ) (cur s t : Bytes)
    → IsPlain sep s
    → split_from sep cur (s ++ sep ∷ t) ≡ (cur ++ s) ∷ split_from sep [] t
unfolding split_from
split_from-part sep cur [] t plain =
    let own : (sep == sep) ≡ true = (==_iff sep sep).1 refl in rw (own, append-nil cur)
split_from-part sep cur (c ∷ s) t plain =
    let other : (c == sep) ≡ false = ground (arith, plain.0) in
    rw other (
      split_from-part sep (cur ++ c ∷ []) s t plain.1
      ∙ ap (λ r. r ∷ split_from sep [] t) (append_assoc cur (c ∷ []) s))

length-split_from : (sep : ℕ) (cur s : Bytes) → 1 ≤ length (split_from sep cur s)
unfolding split_from
length-split_from sep cur [] = omega arith
length-split_from sep cur (c ∷ s) = elim (Bool-cases (c == sep)) [
  | inl e ↦ rw e (omega arith)
  | inr e ↦ rw e (length-split_from sep (cur ++ c ∷ []) s)
]

split-parts :
    (addr rest : Bytes)
    → IsPlain b'/' addr
    → split (b'/' ∷ addr ++ b'/' ∷ rest) b'/' ≡ [] ∷ addr ∷ split_from b'/' [] rest
unfolding split split_from
split-parts addr rest plain = ap (λ r. [] ∷ r) (split_from-part b'/' [] addr rest plain)

-- A name of a '/', a valid address without a '/', another '/' and any rest gives the query for that
-- address and name.
pub get_query_name_request_from_name_lem :
    (p : Primitives) (addr rest : Bytes)
    → IsPlain b'/' addr
    → is_valid p addr ≡ ok tt
    → get_query_name_request_from_name p (b'/' ∷ addr ++ b'/' ∷ rest)
      ≡ ok (record {
        timestamp = [];
        address = addr;
        message_type = query_name_request;
        payload = query (b'/' ∷ addr ++ b'/' ∷ rest) [];
        public_key = [];
        signature = [];
      })
unfolding get_query_name_request_from_name checked or_empty
get_query_name_request_from_name_lem p addr rest plain valid =
    let long : ltb (length ([] ∷ addr ∷ split_from b'/' [] rest)) 3 ≡ false =
      ground (arith, length-split_from b'/' [] rest) in
    rw (split-parts addr rest plain, long, valid)

-- The request for a name asks for that name.
pub request_shape :
    (p : Primitives) (name : Bytes) (rec : Message)
    → get_query_name_request_from_name p name ≡ ok rec
    → (rec.message_type ≡ query_name_request) × (rec.payload ≡ query name [])
unfolding get_query_name_request_from_name checked
request_shape p name rec h = on_long (ltb (length (split name b'/')) 3) h
  where
    asking : Bytes → Message
    asking address = record {
      timestamp = [];
      address = address;
      message_type = query_name_request;
      payload = query name [];
      public_key = [];
      signature = [];
    }

    on_checked :
        (o : Outcome (Unit {0})) (address : Bytes)
        → checked p o (asking address) ≡ ok rec
        → (rec.message_type ≡ query_name_request) × (rec.payload ≡ query name [])
    on_checked (ok _) address g =
        let same : asking address ≡ rec = cc g in
        (sym (ap (λ m. m.message_type) same), sym (ap (λ m. m.payload) same))
    on_checked (err c) address g = cc
    on_checked panic address g = cc

    on_long :
        (b : Bool)
        → (if b
            then err invalid_name
            else let address = or_empty (get_elem? (split name b'/') 1) in
              checked p (is_valid p address) (asking address))
          ≡ ok rec
        → (rec.message_type ≡ query_name_request) × (rec.payload ≡ query name [])
    on_long true g = cc
    on_long false g =
        let address = or_empty (get_elem? (split name b'/') 1) in
        on_checked (is_valid p address) address g
