-- ===== src/DataStore/Ipfs.antt =====
-- datastore/ipfs-data-store.go: the store on an IPFS node. What it prints is left out, and so are the fields
-- pairs and tip, which nothing reads.
use setinstone.Prelude.{
  ℕ, ◌≡◌, refl, sym, ap, ◌∙◌, [], Option, none, some, ◌==◌, if◌then◌else◌, Bytes,
}
use setinstone.Prelude.Action.{
  Action, reads, lift, run-bind, run-end, Keeps, Keeps-bind, ◌>>=◌, ◌>>◌,
}
use setinstone.Prelude.Outcome.{Outcome, Error, ok, err, panic, data_not_found, other}
use setinstone.DataStore.{DataStore, Reader, contents}
use setinstone.Ipfs.{Ipfs, IpfsLaws, path_dir}

-- context.DeadlineExceeded, and an error that the store makes itself
abbrev pub deadline : ℕ
deadline = 1

abbrev pub ipfs_error : Error
ipfs_error = other 3

-- An error is written into a new one.
wrap : {F A : Type 0} → Outcome A × F → Outcome A × F
wrap (ok a, s) = (ok a, s)
wrap (err e, s) = (err ipfs_error, s)
wrap (panic, s) = (panic, s)

unfoldable pub wrapped : {F A : Type 0} → Action F A → Action F A
unfolding wrap
wrapped m s = wrap (m s)

wrap-eq-ok : {F A : Type 0} (x : Outcome A × F) (a : A) (s : F) → wrap x ≡ (ok a, s) → x ≡ (ok a, s)
unfolding wrap
wrap-eq-ok (ok b, t) a s h = h
wrap-eq-ok (err e, t) a s h = cc
wrap-eq-ok (panic, t) a s h = cc

wrap-state : {F A : Type 0} (x : Outcome A × F) → (wrap x).1 ≡ x.1
unfolding wrap
wrap-state (ok b, t) = refl
wrap-state (err e, t) = refl
wrap-state (panic, t) = refl

wrapped-Keeps :
    {F A X : Type 0} (view : F → X) (m : Action F A) → Keeps view m → Keeps view (wrapped m)
unfolding wrapped
wrapped-Keeps view m k s = ap view (wrap-state (m s)) ∙ k s

-- A deadline that has passed is taken for content that is not found.
unfoldable pub classify : Error → Error
classify (other n) = if n == deadline then data_not_found else ipfs_error
classify e = ipfs_error

module _ {F C N E : Type 0} (i : Ipfs F C N E) where
  unfoldable pub link : C → Option (Bytes → Bytes) → Action F Bytes
  link c none = lift (ok [])
  link c (some path_func) = do
    n ← wrapped (reads (i.resolve_node c))
    wrapped (i.mkdir (path_dir (path_func (i.cid_string c))))
    wrapped (i.put_node (path_func (i.cid_string c)) n)
    lift (ok (path_func (i.cid_string c)))

  unfoldable pub put : Bytes → Option (Bytes → Bytes) → Action F (Bytes × Bytes)
  unfolding link
  put b path_func = do
    c ← wrapped (i.unixfs_add b)
    p ← link c path_func
    lift (ok (i.cid_string c, p))

  unfoldable pub remove : Bytes → Option (Bytes → Bytes) → Action F (Unit {0})
  remove key path_func = do c ← lift (i.parse_cid key); wrapped (i.block_rm c)

  of_file : Outcome (Option Reader) → Outcome Reader
  of_file (ok (some r)) = ok r
  of_file (ok none) = err ipfs_error
  of_file (err e) = err (classify e)
  of_file panic = panic

  got : Outcome C → F → Outcome Reader
  unfolding of_file
  got (ok c) s = of_file (i.unixfs_get c s)
  got (err e) s = err e
  got panic s = panic

  unfoldable pub get : Bytes → F → Outcome Reader
  unfolding got
  get key s = got (i.parse_cid key) s

  abbrev pub ipfs_data_store : DataStore F
  ipfs_data_store = record { put = put; remove = remove; get = get }

  module _ (laws : IpfsLaws i) where
    link-Keeps :
        (c d : C) (path_func : Option (Bytes → Bytes)) → Keeps (i.unixfs_get d) (link c path_func)
    unfolding link
    link-Keeps c d none = λ s. refl
    link-Keeps c d (some path_func) =
        let path = path_func (i.cid_string c) in
        let view = i.unixfs_get d in
        Keeps-bind view (wrapped (reads (i.resolve_node c))) _
          (wrapped-Keeps view (reads (i.resolve_node c)) (λ s. refl))
          λ n.
            Keeps-bind view (wrapped (i.mkdir (path_dir path))) _
              (wrapped-Keeps view (i.mkdir (path_dir path))
                (λ s. laws.get_mkdir (path_dir path) s d))
              λ u.
                Keeps-bind view (wrapped (i.put_node path n)) _
                  (wrapped-Keeps view (i.put_node path n) (λ s. laws.get_put_node path n s d))
                  (λ v s. refl)

    of_content :
        (c : C) (r : Reader) (s : F)
        → i.unixfs_get c s ≡ ok (some r)
        → get (i.cid_string c) s ≡ ok r
    unfolding get got of_file
    of_content c r s h = rw (laws.cid_read c, h) refl

    -- What `Put` of the store on IPFS stores without an error, with a path function or without, is
    -- the content that `Get` delivers for the key that was returned.
    pub contents-get-put :
        (b : Bytes) (path_func : Option (Bytes → Bytes)) (s s' : F) (key path : Bytes)
        → put b path_func s ≡ (ok (key, path), s')
        → (r : Reader) × (get key s' ≡ ok r) × (contents r ≡ ok b)
    unfolding put wrapped
    contents-get-put b path_func s s' key path h =
        let (c, t, added, linked) = run-bind (wrapped (i.unixfs_add b)) _ s h in
        let (r, found, all) = laws.get_added b s t c (wrap-eq-ok (i.unixfs_add b s) c t added) in
        let (p, u, done, end) =
          run-bind (link c path_func) (λ p. lift (ok (i.cid_string c, p))) t linked in
        let (same, state) = run-end end in
        let kept : i.unixfs_get c u ≡ ok (some r) =
          ap (λ (x : Outcome Bytes × F). i.unixfs_get c x.1) (sym done)
          ∙ link-Keeps c c path_func t
          ∙ found in
        let got_it : get (i.cid_string c) s' ≡ ok r =
          of_content c r s' (ap (i.unixfs_get c) (sym state) ∙ kept) in
        (r, ap (λ k. get k s') (sym (λ i. (same i).0)) ∙ got_it, all)
