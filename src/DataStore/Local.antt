-- ===== src/DataStore/Local.antt =====
-- datastore/local-data-store.go: the store in memory, by the hexadecimal SHA-256 of the content.
use setinstone.Prelude.{
  ℕ, zero, suc, ◌≡◌, ◌≢◌, refl, ap, ◌∙◌, [], ◌∷◌, Option, none, some, arith, Bytes, bytes_eq,
  bytes_eq_iff, bytes_eq_refl, if◌then◌else◌, length, length-drop, ◌≤◌, take, drop,
  take-append-drop,
}
use setinstone.Prelude.Outcome.{Outcome, ok, err, data_not_found, ◌>>=◌}
use setinstone.Prelude.Assoc.{Assoc, lookup, insert, erase, lookup-insert, lookup-erase}
use setinstone.Primitives.{Primitives}
use setinstone.Hex.{encode_to_string}
use setinstone.DataStore.{chunk, Reader, contents, DataStore}

pub record LocalStore : Type 0 where
  pub pairs : Assoc Bytes
  pub paths : Assoc Bytes

abbrev pub new_local_file_store : LocalStore
new_local_file_store = record { pairs = []; paths = [] }

-- `bytes.NewReader(b)` read through a buffer of 512 bytes; each round takes a byte at least.
buffered : ℕ → Bytes → Reader
buffered zero b = []
buffered (suc f) [] = []
buffered (suc f) (c ∷ b) = chunk (take 512 (c ∷ b)) ∷ buffered f (drop 512 (c ∷ b))

unfoldable pub new_reader : Bytes → Reader
unfolding buffered
new_reader b = buffered (length b) b

module _ (p : Primitives) where
  unfoldable pub key_of : Bytes → Bytes
  key_of b = encode_to_string (p.sha256 b)

  unfoldable pub put :
      Bytes → Option (Bytes → Bytes) → LocalStore → Outcome (Bytes × Bytes) × LocalStore
  put b none s = (ok (key_of b, []), record s { pairs = insert (key_of b) b s.pairs })
  put b (some path_func) s =
      let hex_hash = key_of b in
      let path = path_func hex_hash in
      (
        ok (hex_hash, path),
        record { pairs = insert hex_hash b s.pairs; paths = insert path hex_hash s.paths },
      )

unfoldable pub remove :
    Bytes → Option (Bytes → Bytes) → LocalStore → Outcome (Unit {0}) × LocalStore
remove key path_func s = (ok tt, record s { pairs = erase key s.pairs })

open_found : Option Bytes → Outcome Reader
open_found none = err data_not_found
open_found (some b) = ok (new_reader b)

unfoldable pub get : Bytes → LocalStore → Outcome Reader
unfolding open_found
get key s = open_found (lookup key s.pairs)

abbrev pub local_data_store : Primitives → DataStore LocalStore
local_data_store p = record { put = put p; remove = remove; get = get }

buffered-contents : (f : ℕ) (b : Bytes) → length b ≤ f → contents (buffered f b) ≡ ok b
unfolding contents buffered
buffered-contents zero [] h = refl
buffered-contents zero (c ∷ b) h = absurd (omega arith)
buffered-contents (suc f) [] h = refl
buffered-contents (suc f) (c ∷ b) h =
    rw (buffered-contents f (drop 512 (c ∷ b)) (omega (arith, length-drop 512 (c ∷ b))))
      (ap ok (take-append-drop 512 (c ∷ b)))

-- Whatever the buffer, a reader of bytes delivers those bytes.
pub contents-new_reader : (b : Bytes) → contents (new_reader b) ≡ ok b
unfolding new_reader
contents-new_reader b = buffered-contents (length b) b (omega arith)

module _ (p : Primitives) where
  get-put-pairs :
      (b k : Bytes) (f : Option (Bytes → Bytes)) (s : LocalStore)
      → get k (put p b f s).1 ≡ (if bytes_eq (key_of p b) k then ok (new_reader b) else get k s)
  unfolding get put
  get-put-pairs b k none s = ap open_found (lookup-insert (key_of p b) k b s.pairs) ∙ ground arith
  get-put-pairs b k (some f) s =
      ap open_found (lookup-insert (key_of p b) k b s.pairs) ∙ ground arith

  -- After a `Put` to the store in memory, the content is read under its key, and every other key
  -- reads as before.
  pub get-put :
      (b k : Bytes) (f : Option (Bytes → Bytes)) (s : LocalStore)
      → (get (key_of p b) (put p b f s).1 >>= contents) ≡ ok b
        × (k ≢ key_of p b → get k (put p b f s).1 ≡ get k s)
  get-put b k f s = (
    rw (get-put-pairs b (key_of p b) f s, bytes_eq_refl (key_of p b)) (contents-new_reader b),
    λ ne. get-put-pairs b k f s ∙ ground (arith, bytes_eq_iff (key_of p b) k),
  )

-- After a `Remove` from the store in memory its key is not found, and every other key reads as
-- before.
pub get-remove :
    (k j : Bytes) (f : Option (Bytes → Bytes)) (s : LocalStore)
    → (get k (remove k f s).1 ≡ err data_not_found) × (j ≢ k → get j (remove k f s).1 ≡ get j s)
unfolding get remove
get-remove k j f s = (
  ap open_found (lookup-erase k k s.pairs) ∙ rw (bytes_eq_refl k),
  λ ne. ap open_found (lookup-erase k j s.pairs) ∙ ground (arith, bytes_eq_iff k j),
)
