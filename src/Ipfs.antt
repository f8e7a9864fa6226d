-- ===== src/Ipfs.antt =====
-- What datastore/ipfs-data-store.go and resolver/ipfs_backend.go call of an IPFS node, as a parameter, and
-- the package path of Go's standard library.
use setinstone.Prelude.{
  ◌≡◌, Bool, true, false, Option, some, List, [], ◌∷◌, ◌++◌, Bytes, codes, bytes_eq, reverse, ◌==◌,
  refl, sym, ap, ◌∙◌, reverse-append, reverse-reverse, if◌then◌else◌,
}
use setinstone.Prelude.Action.{Action}
use setinstone.Prelude.Outcome.{Outcome, ok}
use setinstone.DataStore.{Reader, contents}

-- `F` is the state of the node, `C` a content identifier, `N` an IPLD node, `E` an entry of the mutable
-- file system.
pub record Ipfs (F C N E : Type 0) : Type 0 where
  -- cid.Parse, and String of an identifier
  pub parse_cid : Bytes → Outcome C
  pub cid_string : C → Bytes
  -- Unixfs().Add of a file of bytes, Unixfs().Get, whether that is a file, and Block().Rm
  pub unixfs_add : Bytes → Action F C
  pub unixfs_get : C → F → Outcome (Option Reader)
  pub block_rm : C → Action F (Unit {0})
  -- ResolveNode, and Cid of a node
  pub resolve_node : C → F → Outcome N
  pub node_cid : N → C
  -- mfs.Mkdir with parents, mfs.PutNode, mfs.Lookup
  pub mkdir : Bytes → Action F (Unit {0})
  pub put_node : Bytes → N → Action F (Unit {0})
  pub lookup : Bytes → F → Outcome E
  -- methods of entries: whether it is a directory, Unlink, Flush, GetNode
  pub is_directory : E → Bool
  pub unlink : E → Bytes → Action F (Unit {0})
  pub flush : E → F → F
  pub get_node : E → F → Outcome N

-- What a store relies on: an identifier is read back from its text, what is added is got, and the file
-- system leaves the content alone.
pub record IpfsLaws {F C N E : Type 0} (i : Ipfs F C N E) : Type 0 where
  pub cid_read : (c : C) → i.parse_cid (i.cid_string c) ≡ ok c
  pub get_added :
      (b : Bytes) (f f' : F) (c : C)
      → i.unixfs_add b f ≡ (ok c, f')
      → (r : Reader) × (i.unixfs_get c f' ≡ ok (some r)) × (contents r ≡ ok b)
  pub get_mkdir :
      (dir : Bytes) (f : F) (c : C) → i.unixfs_get c (i.mkdir dir f).1 ≡ i.unixfs_get c f
  pub get_put_node :
      (p : Bytes) (n : N) (f : F) (c : C) → i.unixfs_get c (i.put_node p n f).1 ≡ i.unixfs_get c f

-- The text up to the last '/', and the rest, both reversed.
split_reversed : Bytes → Bytes × Bytes
split_reversed [] = ([], [])
split_reversed (c ∷ s) =
    let (file, dir) = split_reversed s in if c == b'/' then ([], c ∷ s) else (c ∷ file, dir)

-- path.Split: the directory with its '/', and the file
unfoldable pub path_split : Bytes → Bytes × Bytes
unfolding split_reversed
path_split p = let (file, dir) = split_reversed (reverse p) in (reverse dir, reverse file)

split_reversed-append : (s : Bytes) → (split_reversed s).0 ++ (split_reversed s).1 ≡ s
unfolding split_reversed
split_reversed-append [] = refl
split_reversed-append (c ∷ s) = on_separator (c == b'/') (split_reversed-append s)
  where
    on_separator :
        (b : Bool)
        → (split_reversed s).0 ++ (split_reversed s).1 ≡ s
        → (let (file, dir) = split_reversed s in
            let parts : Bytes × Bytes = if b then ([], c ∷ s) else (c ∷ file, dir) in
            parts.0 ++ parts.1)
          ≡ c ∷ s
    on_separator true h = refl
    on_separator false h = ap (λ l. c ∷ l) h

-- The parts of a split are the path.
pub path_split-append : (p : Bytes) → (path_split p).0 ++ (path_split p).1 ≡ p
unfolding path_split
path_split-append p =
    sym (reverse-append (split_reversed (reverse p)).0 (split_reversed (reverse p)).1)
    ∙ ap reverse (split_reversed-append (reverse p))
    ∙ reverse-reverse p

-- The parts of a path, without the separators.
parts_from : Bytes → Bytes → List Bytes
parts_from cur [] = cur ∷ []
parts_from cur (c ∷ s) =
    let more = parts_from (if c == b'/' then [] else cur ++ c ∷ []) s in
    if c == b'/' then cur ∷ more else more

-- One more part on the cleaned ones, the last one first.
push : Bool → Bytes → List Bytes → List Bytes
push rooted part cleaned =
    if bytes_eq part []
    then cleaned
    else if bytes_eq part (codes ".")
    then cleaned
    else if bytes_eq part (codes "..")
    then above rooted cleaned
    else part ∷ cleaned
  where
    above : Bool → List Bytes → List Bytes
    above true [] = []
    above false [] = codes ".." ∷ []
    above rooted (last ∷ rest) =
        if bytes_eq last (codes "..") then codes ".." ∷ last ∷ rest else rest

clean_parts : Bool → List Bytes → List Bytes → List Bytes
unfolding push
clean_parts rooted cleaned [] = cleaned
clean_parts rooted cleaned (part ∷ rest) = clean_parts rooted (push rooted part cleaned) rest

joined : List Bytes → Bytes
joined [] = []
joined (part ∷ []) = part
joined (part ∷ more ∷ rest) = part ++ b'/' ∷ joined (more ∷ rest)

-- path.Clean
unfoldable pub path_clean : Bytes → Bytes
unfolding parts_from clean_parts joined
path_clean [] = codes "."
path_clean (c ∷ s) =
    let rooted = c == b'/' in
    let text = joined (reverse (clean_parts rooted [] (parts_from [] (c ∷ s)))) in
    if rooted then b'/' ∷ text else if bytes_eq text [] then codes "." else text

-- path.Dir
unfoldable pub path_dir : Bytes → Bytes
path_dir p = path_clean (path_split p).0
