-- ===== src/Resolver/Local.antt =====
-- resolver/local_resolver.go: names in memory, under the addresses that are managed.
use setinstone.Prelude.{
  ◌≡◌, ◌≢◌, refl, sym, ap, ◌∙◌, [], Option, none, some, arith, Bytes, bytes_eq, bytes_eq_iff,
  if◌then◌else◌,
}
use setinstone.Prelude.Outcome.{
  Outcome, ok, err, panic, no_private_key, unmanaged_address, name_not_found, ◌>>=◌,
}
use setinstone.Prelude.Assoc.{Assoc, lookup, insert, lookup-insert, lookup-insert_self}
use setinstone.Primitives.{Primitives}
use setinstone.Address.{Address}
use setinstone.Message.{Message}
use setinstone.Resolver.{Resolver, get_query_name_request_from_name}

pub record LocalResolver : Type 0 where
  pub names : Assoc Bytes
  pub addresses : Assoc Address

abbrev pub new_local_resolver : LocalResolver
new_local_resolver = record { names = []; addresses = [] }

found_name : Option Bytes → Outcome Bytes
found_name none = err name_not_found
found_name (some value) = ok value

module _ (p : Primitives) where
  -- the rest of `Add`, behind the parsed name
  add_parsed : Outcome Message → Bytes → Bytes → LocalResolver → Outcome (Unit {0}) × LocalResolver
  add_parsed (err e) name value r = (err e, r)
  add_parsed panic name value r = (panic, r)
  add_parsed (ok rec) name value r = elim (lookup rec.address r.addresses) [
    | none ↦ (err unmanaged_address, r)
    | some _ ↦ (ok tt, record r { names = insert name value r.names })
  ]

  unfoldable pub add : Bytes → Bytes → LocalResolver → Outcome (Unit {0}) × LocalResolver
  unfolding add_parsed
  add name value r = add_parsed (get_query_name_request_from_name p name) name value r

  unfoldable pub resolve : Bytes → LocalResolver → Outcome Bytes
  unfolding found_name
  resolve name r = get_query_name_request_from_name p name >>= λ _. found_name (lookup name r.names)

-- An address without a key pair has a nil pointer there.
unfoldable pub manage : Address → LocalResolver → Outcome (Unit {0}) × LocalResolver
manage addr r = elim addr.keys [
  | none ↦ (panic, r)
  | some k ↦
      if bytes_eq k.private_key []
      then (err no_private_key, r)
      else (ok tt, record r { addresses = insert addr.address addr r.addresses })
]

abbrev pub local_resolver : Primitives → Resolver LocalResolver
local_resolver p = record { resolve = resolve p; add = add p; manage = manage }

module _ (p : Primitives) where
  -- What a successful `Add` went through.
  pub add-eq-ok :
      (name value : Bytes) (r r' : LocalResolver)
      → add p name value r ≡ (ok tt, r')
      → (rec : Message) × (get_query_name_request_from_name p name ≡ ok rec)
        × (r' ≡ record r { names = insert name value r.names })
  unfolding add
  add-eq-ok name value r r' h = split_parsed (get_query_name_request_from_name p name) refl h
    where
      split_parsed :
          (o : Outcome Message)
          → get_query_name_request_from_name p name ≡ o
          → add_parsed p o name value r ≡ (ok tt, r')
          → (rec : Message) × (get_query_name_request_from_name p name ≡ ok rec)
            × (r' ≡ record r { names = insert name value r.names })
      split_parsed (ok rec) e g = (rec, e, ground arith)
      split_parsed (err c) e g = cc
      split_parsed panic e g = cc

  other_name :
      (name other value : Bytes) (r : LocalResolver)
      → other ≢ name
      → lookup other (insert name value r.names) ≡ lookup other r.names
  other_name name other value r ne =
      ground (arith, lookup-insert name other value r.names, bytes_eq_iff name other)

  resolve_names :
      (name : Bytes) (r : LocalResolver)
      → resolve p name r
        ≡ (get_query_name_request_from_name p name >>= λ _. found_name (lookup name r.names))
  unfolding resolve
  resolve_names name r = refl

  -- After a successful `Add` to the resolver in memory the name resolves to its value, and every
  -- other name resolves as it did.
  pub resolve-add :
      (name other value : Bytes) (r r' : LocalResolver)
      → add p name value r ≡ (ok tt, r')
      → (resolve p name r' ≡ ok value) × (other ≢ name → resolve p other r' ≡ resolve p other r)
  resolve-add name other value r r' h =
      let (rec, parsed, e) = add-eq-ok name value r r' h in
      (
        ap (resolve p name) e
            ∙ resolve_names name (record r { names = insert name value r.names })
            ∙ rw (parsed, lookup-insert_self name value r.names) (unfold found_name in refl),
        λ ne.
            ap (resolve p other) e
            ∙ resolve_names other (record r { names = insert name value r.names })
            ∙ ap (λ o. get_query_name_request_from_name p other >>= λ _. found_name o)
                (other_name name other value r ne)
            ∙ sym (resolve_names other r),
      )

  -- For a well-formed name, `Add` under an address that nobody manages fails and changes nothing,
  -- and under a managed address it succeeds.
  pub add-managed :
      (name value : Bytes) (r : LocalResolver) (rec : Message)
      → get_query_name_request_from_name p name ≡ ok rec
      → ((lookup rec.address r.addresses ≡ none) → add p name value r ≡ (err unmanaged_address, r))
        × ((a : Address) → lookup rec.address r.addresses ≡ some a → (add p name value r).0 ≡ ok tt)
  unfolding add
  add-managed name value r rec h = (λ e. rw h (ground arith), λ a e. rw h (ground arith))
