-- ===== src/Address/Xdr.antt =====
-- address/address.go: `NewAddressFromBytes`, `ToBytes` and `FromBytes`, over the XDR encoding, which is
-- a parameter.
use setinstone.Prelude.{Bytes}
use setinstone.Prelude.Action.{Action}
use setinstone.Prelude.Outcome.{Outcome}
use setinstone.Address.{Address}
use setinstone.Address.Generated.{new}

-- An encoder writes to its buffer whether it fails or not, and a decoder to the address that it is given.
pub record Xdr : Type 0 where
  pub encode : Address → Outcome (Unit {0}) × Bytes
  pub decode : Bytes → Action Address (Unit {0})

module _ (x : Xdr) where
  -- The error is printed only.
  unfoldable pub to_bytes : Address → Bytes
  to_bytes a = (x.encode a).1

  unfoldable pub from_bytes : Bytes → Action Address (Unit {0})
  from_bytes b a = x.decode b a

  -- The error is dropped; the address starts empty.
  unfoldable pub new_address_from_bytes : Bytes → Address
  unfolding new
  new_address_from_bytes b = (x.decode b new).1
