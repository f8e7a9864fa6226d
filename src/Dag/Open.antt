-- ===== src/Dag/Open.antt =====
-- datastore/local-data-store.go and resolver/local_resolver.go under what the graph gives them.
use setinstone.Prelude.{ℕ, ◌≡◌, refl, List, [], ◌++◌, Option, some, none, arith, Bytes, codes}
use setinstone.Prelude.Outcome.{ok}
use setinstone.Prelude.Assoc.{lookup, insert}
use setinstone.Primitives.{Primitives}
use setinstone.Address.{Address, is_valid}
use setinstone.DataStore.Local
use setinstone.Message.{Message}
use setinstone.Resolver.{get_query_name_request_from_name}
use setinstone.Resolver.Local.{LocalResolver, add}
use setinstone.Resolver.Names.{IsPlain, get_query_name_request_from_name_lem}
use setinstone.Dag.Core.{get_name, join}
use setinstone.Dag.Local.{Memory, Codec, local_dag}
use setinstone.Dag.Progress.{IsOpen}

-- The address is managed.
abbrev pub IsManaged : Bytes → Address → Memory → Type 0
IsManaged addr a m = lookup addr m.known.addresses ≡ some a

add-parsed :
    (p : Primitives) (name value : Bytes) (r : LocalResolver) (rec : Message) (a : Address)
    → get_query_name_request_from_name p name ≡ ok rec
    → lookup rec.address r.addresses ≡ some a
    → add p name value r ≡ (ok tt, record r { names = insert name value r.names })
unfolding add
add-parsed p name value r rec a parsed found = rw parsed (ground arith)

module _ (p : Primitives) (codec : Codec) (name_space : Bytes) (stack : ℕ) where
  add_named :
      (addr : Bytes) (a : Address) (parts : List Bytes) (value : Bytes) (r : LocalResolver)
      → IsPlain b'/' addr
      → is_valid p addr ≡ ok tt
      → lookup addr r.addresses ≡ some a
      → add p (get_name (local_dag p codec name_space stack) addr parts) value r ≡ (
        ok tt,
        record r {
          names = insert (get_name (local_dag p codec name_space stack) addr parts) value r.names;
        },
      )
  unfolding get_name local_dag
  add_named addr a parts value r plain valid found =
      add-parsed p
        (codes "/" ++ (addr ++ (codes "/" ++ (name_space ++ (codes "/dag/" ++ join parts))))) value
        r _ a
        (get_query_name_request_from_name_lem p addr (name_space ++ (codes "/dag/" ++ join parts))
          plain valid)
        found

  put_any :
      (addr : Bytes) (a : Address) (b : Bytes) (f : Option (Bytes → Bytes)) (s : Memory)
      → IsManaged addr a s
      → (key : Bytes) × (path : Bytes) × (s' : Memory) × ((local_dag p codec name_space
              stack).dt.put
            b f s
          ≡ (ok (key, path), s'))
        × IsManaged addr a s'
  unfolding local_dag Local.put
  put_any addr a b none s ready = (Local.key_of p b, [], _, refl, ready)
  put_any addr a b (some g) s ready = (Local.key_of p b, g (Local.key_of p b), _, refl, ready)

  -- The store and the resolver in memory take all content and every name under an address that is
  -- valid, has no '/' and is managed, and it stays managed.
  pub local_dag-IsOpen :
      (addr : Bytes) (a : Address)
      → IsPlain b'/' addr
      → is_valid p addr ≡ ok tt
      → IsOpen (local_dag p codec name_space stack) addr (IsManaged addr a)
  unfolding local_dag
  local_dag-IsOpen addr a plain valid = record {
    put_ok = put_any addr a;
    add_ok = λ parts value s ready.
        let done = add_named addr a parts value s.known plain valid ready in
        (
          record s {
            known = record s.known {
              names =
                  insert (get_name (local_dag p codec name_space stack) addr parts) value
                    s.known.names;
            };
          },
          λ i. ((done i).0, record s { known = (done i).1 }),
          ready,
        );
  }
