-- ===== src/Resolver.antt =====
-- resolver/resolver.go: the resolver of names as an interface, and the form that a name must have.
pub mod Local
pub mod Backend
pub mod Network
pub mod Names
use setinstone.Prelude.{
  ℕ, List, [], ◌∷◌, ◌++◌, true, false, Bytes, codes, ◌==◌, if◌then◌else◌, length, ltb, get_elem?,
  Option, none, some,
}
use setinstone.Prelude.Outcome.{
  Outcome, ok, err, panic, invalid_name, invalid_addr_component, ◌>>=◌,
}
use setinstone.Primitives.{Primitives}
use setinstone.Address.{Address, is_valid}
use setinstone.Message.{Message, query, query_name_request}

pub record Resolver (S : Type 0) : Type 0 where
  pub resolve : Bytes → S → Outcome Bytes
  pub add : Bytes → Bytes → S → Outcome (Unit {0}) × S
  pub manage : Address → S → Outcome (Unit {0}) × S

-- `strings.Split(s, sep)` for a separator of one byte; `cur` is the part that is being read.
split_from : ℕ → Bytes → Bytes → List Bytes
split_from sep cur [] = cur ∷ []
split_from sep cur (c ∷ s) =
    let cut = cur ∷ split_from sep [] s in
    let more = split_from sep (cur ++ c ∷ []) s in if c == sep then cut else more

unfoldable pub split : Bytes → ℕ → List Bytes
unfolding split_from
split s sep = split_from sep [] s

or_empty : Option Bytes → Bytes
or_empty none = []
or_empty (some s) = s

module _ (p : Primitives) where
  -- An invalid address, whatever its error, is an invalid name.
  checked : Outcome (Unit {0}) → Message → Outcome Message
  checked (ok _) request = ok request
  checked (err _) request = err invalid_addr_component
  checked panic request = panic

  unfoldable pub get_query_name_request_from_name : Bytes → Outcome Message
  unfolding or_empty checked
  get_query_name_request_from_name name =
      let parts = split name b'/' in
      if ltb (length parts) 3
      then err invalid_name
      else let address = or_empty (get_elem? parts 1) in
        checked (is_valid p address) (record {
          timestamp = [];
          address = address;
          message_type = query_name_request;
          payload = query name [];
          public_key = [];
          signature = [];
        })
