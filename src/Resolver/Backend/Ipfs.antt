-- ===== src/Resolver/Backend/Ipfs.antt =====
-- resolver/ipfs_backend.go: the backend in the mutable file system of an IPFS node.
use setinstone.Prelude.{
  ◌≡◌, ◌≢◌, refl, sym, ap, ◌∙◌, subst, [], Bool, true, false, Bytes, not, if◌then◌else◌,
}
use setinstone.Prelude.Action.{
  Action, reads, lift, ◌>>=◌, ◌>>◌, run-lift, run-end, run-reads, run-bind,
}
use setinstone.Prelude.Outcome.{Outcome, Error, ok, err, panic, no_private_key, other}
use setinstone.Primitives.{Primitives}
use setinstone.Address.{Address, has_keys}
use setinstone.Message.{Message}
use setinstone.Ipfs.{Ipfs, path_split}
use setinstone.Resolver.{get_query_name_request_from_name}
use setinstone.Resolver.Backend.{Backend}

-- an error that `Add` makes itself
abbrev pub backend_error : Error
backend_error = other 5

-- whether an error is nil
is_nil : {A : Type 0} → Outcome A → Outcome Bool
is_nil (ok _) = ok true
is_nil (err e) = ok false
is_nil panic = panic

-- An error is only logged.
unfoldable pub logged : {F : Type 0} → Outcome (Unit {0}) × F → Outcome (Unit {0}) × F
logged (ok _, s) = (ok tt, s)
logged (err e, s) = (ok tt, s)
logged (panic, s) = (panic, s)

-- The error of `Lookup` is written into a new one.
parent_of : {E : Type 0} → Outcome E → Outcome E
parent_of (ok e) = ok e
parent_of (err e) = err backend_error
parent_of panic = panic

-- A path under which nothing is, in a directory that is there.
pub record IsFree {F C N E : Type 0} (i : Ipfs F C N E) (name : Bytes) (s : F) : Type 0 where
  pub directory : E
  pub found : i.lookup (path_split name).0 s ≡ ok directory
  pub is_directory : i.is_directory directory ≡ true
  pub reason : Error
  pub absent : i.lookup name s ≡ err reason

-- What the backend relies on, of an IPFS node that does not fail by itself: the node of an identifier has
-- it; Mkdir makes the directory of a path and not its file; Unlink and Flush free the path of a file; what
-- is put under a free path is found there. PutNode under a path that is taken may fail.
pub record FileLaws {F C N E : Type 0} (i : Ipfs F C N E) : Type 0 where
  pub node_found : (c : C) (n : N) (s : F) → i.resolve_node c s ≡ ok n → i.node_cid n ≡ c
  pub made_free :
      (name : Bytes) (e : Error) (s s' : F)
      → (path_split name).1 ≢ []
      → i.lookup name s ≡ err e
      → i.mkdir (path_split name).0 s ≡ (ok tt, s')
      → IsFree i name s'
  pub unlinked_free :
      (name : Bytes) (d : E) (s s' : F)
      → (path_split name).1 ≢ []
      → i.lookup (path_split name).0 s ≡ ok d
      → i.is_directory d ≡ true
      → i.unlink d (path_split name).1 s ≡ (ok tt, s')
      → IsFree i name (i.flush d s')
  pub put_free :
      (name : Bytes) (n : N) (s : F)
      → IsFree i name s
      → (s' : F) × (i.put_node name n s ≡ (ok tt, s'))
  pub put_found :
      (name : Bytes) (n : N) (s s' : F)
      → i.put_node name n s ≡ (ok tt, s')
      → (e : E) × (i.lookup name s' ≡ ok e) × (i.get_node e s' ≡ ok n)

module _ {F C N E : Type 0} (p : Primitives) (i : Ipfs F C N E) where
  -- The API is made by the caller.
  unfoldable pub new_ipfs_backend : Address → Outcome (Unit {0})
  new_ipfs_backend signer_addr = if not (has_keys signer_addr) then err no_private_key else ok tt

  -- A file that is there is removed from its directory.
  unfoldable pub clear : Bool → Bytes → Bytes → Action F (Unit {0})
  unfolding parent_of
  clear false dir file = lift (ok tt)
  clear true dir file = do
    pdir ← reads (λ s. parent_of (i.lookup dir s))
    lift (if i.is_directory pdir then ok tt else err backend_error)
    i.unlink pdir file
    λ s. (ok tt, i.flush pdir s)

  unfoldable pub add : Bytes → Bytes → Action F (Unit {0})
  unfolding is_nil clear logged
  add name value = do
    c ← lift (i.parse_cid value)
    n ← reads (i.resolve_node c)
    exists ← reads (λ s. is_nil (i.lookup name s))
    i.mkdir (path_split name).0
    clear exists (path_split name).0 (path_split name).1
    λ s. logged (i.put_node name n s)

  unfoldable pub resolve : Bytes → F → Outcome Bytes
  resolve name s = text (get_query_name_request_from_name p name)
    where
      named : Outcome N → Outcome Bytes
      named (ok n) = ok (i.cid_string (i.node_cid n))
      named (err e) = err e
      named panic = panic

      entry : Outcome E → Outcome Bytes
      entry (ok e) = named (i.get_node e s)
      entry (err e) = err e
      entry panic = panic

      text : Outcome Message → Outcome Bytes
      text (ok rec) = entry (i.lookup name s)
      text (err e) = err e
      text panic = panic

  abbrev pub ipfs_backend : Backend F
  ipfs_backend = record { add = λ now. add; resolve = λ now. resolve }

  -- What `clear` leaves behind Mkdir.
  clear-IsFree :
      (name : Bytes) (exists : Bool) (s made cleared : F)
      → FileLaws i
      → (path_split name).1 ≢ []
      → is_nil (i.lookup name s) ≡ ok exists
      → i.mkdir (path_split name).0 s ≡ (ok tt, made)
      → clear exists (path_split name).0 (path_split name).1 made ≡ (ok tt, cleared)
      → IsFree i name cleared
  unfolding clear is_nil parent_of
  clear-IsFree name false s made cleared laws file asked dir h =
      subst (IsFree i name) (run-end h).1 (on_absent (i.lookup name s) refl asked)
    where
      on_absent : (o : Outcome E) → i.lookup name s ≡ o → is_nil o ≡ ok false → IsFree i name made
      on_absent (ok e) q k = cc
      on_absent (err e) q k = laws.made_free name e s made file q dir
      on_absent panic q k = cc
  clear-IsFree name true s made cleared laws file asked dir h =
      let (d, at, h1) = run-reads (λ s. parent_of (i.lookup (path_split name).0 s)) _ made h in
      let (u, is_dir, h2) =
        run-lift (if i.is_directory d then ok tt else err backend_error) _ made h1 in
      let (v, t, gone, h3) = run-bind (i.unlink d (path_split name).1) _ made h2 in
      subst (IsFree i name) (run-end h3).1 (
        laws.unlinked_free name d made t file
          (on_parent (i.lookup (path_split name).0 made) refl at)
          (on_directory (i.is_directory d) is_dir) gone)
    where
      on_parent :
          {d : E} (o : Outcome E)
          → i.lookup (path_split name).0 made ≡ o
          → parent_of o ≡ ok d
          → i.lookup (path_split name).0 made ≡ ok d
      on_parent (ok e) q k = q ∙ k
      on_parent (err e) q k = cc
      on_parent panic q k = cc

      on_directory : (b : Bool) → (if b then ok tt else err backend_error) ≡ ok (tt {0}) → b ≡ true
      on_directory true k = refl
      on_directory false k = cc

  resolve-found :
      (name : Bytes) (rec : Message) (e : E) (n : N) (s : F)
      → get_query_name_request_from_name p name ≡ ok rec
      → i.lookup name s ≡ ok e
      → i.get_node e s ≡ ok n
      → resolve name s ≡ ok (i.cid_string (i.node_cid n))
  unfolding resolve
  resolve-found name rec e n s parsed found node = rw (parsed, found, node) refl

  -- When the `Add` of the backend on IPFS returns no error under a well-formed name that does not
  -- end in '/', whether the name had a value or not, the value is a content identifier and
  -- `Resolve` of the name returns the text of that identifier; for an IPFS node that does not fail
  -- by itself, whose PutNode may refuse a path that is taken.
  pub resolve-add :
      (name value : Bytes) (rec : Message) (s s' : F)
      → FileLaws i
      → (path_split name).1 ≢ []
      → get_query_name_request_from_name p name ≡ ok rec
      → add name value s ≡ (ok tt, s')
      → (c : C) × (i.parse_cid value ≡ ok c) × (resolve name s' ≡ ok (i.cid_string c))
  unfolding add logged
  resolve-add name value rec s s' laws file parsed h =
      let (c, is_cid, h1) = run-lift (i.parse_cid value) _ s h in
      let (n, found, h2) = run-reads (i.resolve_node c) _ s h1 in
      let (exists, asked, h3) = run-reads (λ s. is_nil (i.lookup name s)) _ s h2 in
      let (u, made, dir, h4) = run-bind (i.mkdir (path_split name).0) _ s h3 in
      let (v, cleared, gone, h5) =
        run-bind (clear exists (path_split name).0 (path_split name).1) _ made h4 in
      let (t, put) =
        laws.put_free name n cleared
          (clear-IsFree name exists s made cleared laws file asked dir gone) in
      let left : t ≡ s' = λ k. ((sym (ap logged put) ∙ h5) k).1 in
      let (entry, at, node) = laws.put_found name n cleared s' (put ∙ λ k. (ok tt, left k)) in
      (
        c,
        is_cid,
        resolve-found name rec entry n s' parsed at node
            ∙ ap (λ d. ok (i.cid_string d)) (laws.node_found c n s found),
      )
