-- ===== src/Dag/Names.antt =====
-- dag/dag.go: `getName`. The parts of a name are told apart where they have no '/' in them.
use setinstone.Prelude.{
  ℕ, ◌≡◌, ◌≢◌, refl, sym, ap, ◌∙◌, [], ◌∷◌, ◌++◌, Bytes, All, codes, reverse, reverse-append,
  reverse-reverse,
}
use setinstone.Dag.Node.{Node}
use setinstone.Dag.Core.{Dag, get_name, get_last_node_name, join}

-- A part of a path: an address or a key.
abbrev pub IsPart : Bytes → Type 0
IsPart = All (λ c. c ≢ b'/')

∷-injective : {x y : ℕ} {a b : Bytes} → x ∷ a ≡ y ∷ b → (x ≡ y) × (a ≡ b)
∷-injective e = (cc e, cc e)

pub IsPart-cut :
    (a b x y : Bytes) → IsPart a → IsPart b → a ++ b'/' ∷ x ≡ b ++ b'/' ∷ y → (a ≡ b) × (x ≡ y)
IsPart-cut [] [] x y ha hb e = (refl, (∷-injective e).1)
IsPart-cut [] (d ∷ b) x y ha hb e = absurd (hb.0 (sym (∷-injective e).0))
IsPart-cut (c ∷ a) [] x y ha hb e = absurd (ha.0 (∷-injective e).0)
IsPart-cut (c ∷ a) (d ∷ b) x y ha hb e =
    let (head, tail) = ∷-injective e in
    let (same, rest) = IsPart-cut a b x y ha.1 hb.1 tail in ((λ i. head i ∷ same i), rest)

append-cancel : (s a b : Bytes) → s ++ a ≡ s ++ b → a ≡ b
append-cancel [] a b e = e
append-cancel (c ∷ s) a b e = append-cancel s a b (∷-injective e).1

append_right-cancel : (a b s : Bytes) → a ++ s ≡ b ++ s → a ≡ b
append_right-cancel a b s e =
    let mirrored : reverse s ++ reverse a ≡ reverse s ++ reverse b =
      sym (reverse-append a s) ∙ ap reverse e ∙ reverse-append b s in
    sym (reverse-reverse a)
    ∙ ap reverse (append-cancel (reverse s) (reverse a) (reverse b) mirrored)
    ∙ reverse-reverse b

-- The names of heads are the same only for one address, one key and one branch.
pub get_last_node_name-injective :
    {S : Type 0} (da : Dag S) (n m : Node) (key key' branch branch' : Bytes)
    → IsPart n.address
    → IsPart m.address
    → IsPart key
    → IsPart key'
    → get_last_node_name da n key branch ≡ get_last_node_name da m key' branch'
    → (n.address ≡ m.address) × (key ≡ key') × (branch ≡ branch')
unfolding get_last_node_name get_name join
get_last_node_name-injective da n m key key' branch branch' hn hm hk hk' e =
    let (same_address, rest) = IsPart-cut n.address m.address _ _ hn hm (∷-injective e).1 in
    let parts =
      append-cancel (codes "/dag/shortcuts/") _ _ (append-cancel da.name_space _ _ rest) in
    let (same_key, tail) = IsPart-cut key key' _ _ hk hk' parts in
    (same_address, same_key, append_right-cancel branch branch' (codes "/last") tail)
