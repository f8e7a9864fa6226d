-- ===== src/Tests/Files.antt =====
-- The backend on IPFS at concrete inputs.
use setinstone.Prelude.{
  ◌≡◌, ◌≢◌, refl, sym, ap, ◌∙◌, subst, true, false, Option, none, some, [], ◌∷◌, ◌++◌, Bytes, codes,
  bytes_eq, bytes_eq_iff, bytes_eq_refl, Bool-cases, inl, inr,
}
use setinstone.Prelude.Action.{◌>>=◌}
use setinstone.Prelude.Assoc.{
  Assoc, lookup, insert, erase, lookup-insert_self, lookup-insert, lookup-erase,
}
use setinstone.Prelude.Outcome.{Outcome, Error, ok, err, other}
use setinstone.DataStore.{last}
use setinstone.Ipfs.{Ipfs, path_split, path_split-append}
use setinstone.Resolver.Backend.Ipfs.{add, resolve, clear, logged, IsFree, FileLaws, resolve-add}
use setinstone.Tests.Samples.{toy}
use setinstone.Tests.Stores.{name, request, name-parsed}

abbrev of_entry : Bytes → Option Bytes → Outcome (Bytes × Bytes)
of_entry p none = err (other 6)
of_entry p (some b) = ok (p, b)

-- A path that is taken is not written.
abbrev put_at : Option Bytes → Bytes → Bytes → Assoc Bytes → Outcome (Unit {0}) × Assoc Bytes
put_at none p n f = (ok tt, insert p n f)
put_at (some _) p n f = (err (other 7), f)

-- Content is its own identifier and its own node; the state is what stands under each path, for a
-- directory nothing, and an entry is a path with that.
abbrev toy_ipfs : Ipfs (Assoc Bytes) Bytes Bytes (Bytes × Bytes)
toy_ipfs = record {
  parse_cid = λ s. ok s;
  cid_string = λ c. c;
  unixfs_add = λ b f. (ok b, f);
  unixfs_get = λ c f. ok (some (last c ∷ []));
  block_rm = λ c f. (ok tt, f);
  resolve_node = λ c f. ok c;
  node_cid = λ n. n;
  mkdir = λ dir f. (ok tt, insert dir [] f);
  put_node = λ p n f. put_at (lookup p f) p n f;
  lookup = λ p f. of_entry p (lookup p f);
  is_directory = λ e. bytes_eq e.1 [];
  unlink = λ e n f. (ok tt, erase (e.0 ++ n) f);
  flush = λ e f. f;
  get_node = λ e f. ok e.1;
}

append-nil_only : (d f : Bytes) → d ≡ d ++ f → f ≡ []
append-nil_only [] f e = sym e
append-nil_only (c ∷ d) f e = append-nil_only d f (cc e)

-- A path with a file is not its directory.
not_directory : (p : Bytes) → (path_split p).1 ≢ [] → bytes_eq (path_split p).0 p ≡ false
not_directory p file = elim (Bool-cases (bytes_eq (path_split p).0 p)) [
  | inl t ↦ absurd (
      file (
        append-nil_only (path_split p).0 (path_split p).1
          ((bytes_eq_iff (path_split p).0 p).0 t ∙ sym (path_split-append p))))
  | inr f ↦ f
]

not_self : (p : Bytes) → (path_split p).1 ≢ [] → bytes_eq p (path_split p).0 ≡ false
not_self p file = elim (Bool-cases (bytes_eq p (path_split p).0)) [
  | inl t ↦
      let same : bytes_eq (path_split p).0 p ≡ true =
        (bytes_eq_iff (path_split p).0 p).1 (sym ((bytes_eq_iff p (path_split p).0).0 t)) in
      absurd (true_false (sym same ∙ not_directory p file))
  | inr f ↦ f
]
  where
    true_false : true ≢ false
    true_false e = cc e

made :
    (p : Bytes) (e : Error) (s s' : Assoc Bytes)
    → (path_split p).1 ≢ []
    → toy_ipfs.lookup p s ≡ err e
    → toy_ipfs.mkdir (path_split p).0 s ≡ (ok tt, s')
    → IsFree toy_ipfs p s'
made p e s s' file free h =
    subst (IsFree toy_ipfs p) (λ k. (h k).1)
      (record {
        directory = ((path_split p).0, []);
        found = rw (lookup-insert_self (path_split p).0 [] s) refl;
        is_directory = bytes_eq_refl [];
        reason = e;
        absent = rw (lookup-insert (path_split p).0 p [] s, not_directory p file) free;
      })

unlinked :
    (p : Bytes) (d : Bytes × Bytes) (s s' : Assoc Bytes)
    → (path_split p).1 ≢ []
    → toy_ipfs.lookup (path_split p).0 s ≡ ok d
    → toy_ipfs.is_directory d ≡ true
    → toy_ipfs.unlink d (path_split p).1 s ≡ (ok tt, s')
    → IsFree toy_ipfs p s'
unlinked p d s s' file at is_dir h =
    subst (IsFree toy_ipfs p) (ap (λ q. erase q s) (sym whole) ∙ λ k. (h k).1) (record {
      directory = d;
      found = rw (lookup-erase p (path_split p).0 s, not_self p file) at;
      is_directory = is_dir;
      reason = other 6;
      absent = rw (lookup-erase p p s, bytes_eq_refl p) refl;
    })
  where
    on_entry : (o : Option Bytes) → of_entry (path_split p).0 o ≡ ok d → (path_split p).0 ≡ d.0
    on_entry none e = cc
    on_entry (some b) e = cc

    whole : d.0 ++ (path_split p).1 ≡ p
    whole =
        ap (λ q. q ++ (path_split p).1) (sym (on_entry (lookup (path_split p).0 s) at))
        ∙ path_split-append p

put_free :
    (p n : Bytes) (s : Assoc Bytes)
    → IsFree toy_ipfs p s
    → (s' : Assoc Bytes) × (toy_ipfs.put_node p n s ≡ (ok tt, s'))
put_free p n s free = on_entry (lookup p s) free.absent
  where
    on_entry :
        (o : Option Bytes)
        → of_entry p o ≡ err free.reason
        → (s' : Assoc Bytes) × (put_at o p n s ≡ (ok tt, s'))
    on_entry none e = (insert p n s, refl)
    on_entry (some b) e = cc

put_found :
    (p n : Bytes) (s s' : Assoc Bytes)
    → toy_ipfs.put_node p n s ≡ (ok tt, s')
    → (e : Bytes × Bytes) × (toy_ipfs.lookup p s' ≡ ok e) × (toy_ipfs.get_node e s' ≡ ok n)
put_found p n s s' h = on_entry (lookup p s) h
  where
    on_entry :
        (o : Option Bytes)
        → put_at o p n s ≡ (ok tt, s')
        → (e : Bytes × Bytes) × (toy_ipfs.lookup p s' ≡ ok e) × (toy_ipfs.get_node e s' ≡ ok n)
    on_entry none g = (
      (p, n),
      ap (toy_ipfs.lookup p) (sym (λ k. (g k).1)) ∙ rw (lookup-insert_self p n s) refl,
      refl,
    )
    on_entry (some b) g = cc

toy_ipfs-FileLaws : FileLaws toy_ipfs
toy_ipfs-FileLaws = record {
  node_found = λ c n s h. sym (cc h);
  made_free = made;
  unlinked_free = unlinked;
  put_free = put_free;
  put_found = put_found;
}

-- The name has a value already.
abbrev before : Assoc Bytes
before = (name, codes "u") ∷ []

abbrev after : Assoc Bytes
after = (add toy toy_ipfs name (codes "v") before).1

replaced : add toy toy_ipfs name (codes "v") before ≡ (ok tt, after)
unfolding add clear logged ◌>>=◌ insert lookup erase path_split bytes_eq
replaced = refl

name_has_file : (path_split name).1 ≢ []
unfolding path_split
name_has_file e = cc e

resolve-add_example :
    (c : Bytes) × (toy_ipfs.parse_cid (codes "v") ≡ ok c)
    × (resolve toy toy_ipfs name after ≡ ok (toy_ipfs.cid_string c))
resolve-add_example =
    resolve-add toy toy_ipfs name (codes "v") request before after toy_ipfs-FileLaws name_has_file
      name-parsed replaced
