-- ===== src/DataStore.antt =====
-- datastore/data-store.go: the store of nodes as an interface, and what `io.Reader` delivers.
pub mod Local
pub mod Ipfs
use setinstone.Prelude.{Option, List, [], ◌∷◌, ◌++◌, Bytes}
use setinstone.Prelude.Outcome.{Error, Outcome, ok, err, ◌>>=◌}

-- One call of `Read`: some bytes, bytes with `io.EOF`, or bytes with another error. Behind the last
-- of them a reader is at its end.
pub data Read : Type 0 where
  chunk last : Bytes → Read
  broken : Bytes → Error → Read

abbrev pub Reader : Type 0
Reader = List Read

-- All that a reader delivers.
unfoldable pub contents : Reader → Outcome Bytes
contents [] = ok []
contents (last b ∷ r) = ok b
contents (broken b e ∷ r) = err e
contents (chunk b ∷ r) = contents r >>= λ s. ok (b ++ s)

-- `Put` returns the key, and the path that the path function, unless it is nil, makes of it.
pub record DataStore (S : Type 0) : Type 0 where
  pub put : Bytes → Option (Bytes → Bytes) → S → Outcome (Bytes × Bytes) × S
  pub remove : Bytes → Option (Bytes → Bytes) → S → Outcome (Unit {0}) × S
  pub get : Bytes → S → Outcome Reader
