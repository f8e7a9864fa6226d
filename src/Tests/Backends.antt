-- ===== src/Tests/Backends.antt =====
-- The backends, the store on IPFS and random strings at concrete inputs.
use setinstone.Prelude.{
  ◌≡◌, refl, sym, ap, ◌∙◌, Bool, true, some, [], ◌∷◌, arith, Bytes, bytes_eq_iff, length,
}
use setinstone.Prelude.Assoc.{Assoc, lookup, insert, lookup-insert_self, lookup-insert}
use setinstone.Prelude.Outcome.{Outcome, ok, err, panic}
use setinstone.Random.{rand_string, IsText, rand_string_lem}
use setinstone.Resolver.Backend.{BackendLaws}
use setinstone.Resolver.Backend.Bolt.{
  Bolt, BoltLaws, HasNames, bolt_backend, bolt_backend-BackendLaws,
}
use setinstone.Tests.Samples.{toy}

-- A database of one bucket, and whether it is there.
abbrev Db : Type 0
Db = Bool × Assoc Bytes

abbrev commit : Outcome (Unit {0}) × Db → Db → Outcome (Unit {0}) × Db
commit (ok _, t) d = (ok tt, t)
commit (err e, t) d = (err e, d)
commit (panic, t) d = (panic, d)

abbrev toy_bolt : Bolt Db Db
toy_bolt = record {
  update = λ f d. commit (f d) d;
  view = λ f d. f d;
  create_bucket_if_not_exists = λ bucket t. (ok tt, (true, t.1));
  has_bucket = λ bucket t. t.0;
  put = λ bucket k v t. (ok tt, (t.0, insert k v t.1));
  get = λ bucket k t. lookup k t.1;
}

commit-ok : (x : Outcome (Unit {0}) × Db) (d d' : Db) → commit x d ≡ (ok tt, d') → x ≡ (ok tt, d')
commit-ok (ok tt, t) d d' h = h
commit-ok (err e, t) d d' h = cc
commit-ok (panic, t) d d' h = cc

toy_bolt-laws : BoltLaws toy_bolt (λ d. d)
toy_bolt-laws = record {
  update_run = λ f d d' h. commit-ok (f d) d d' h;
  view_run = λ f d. refl;
  bucket_created = λ bucket t t' h. sym (λ i. (h i).1.0);
  bucket_put = λ bucket k v t t' h has. sym (λ i. (h i).1.0) ∙ has;
  get_put = λ bucket k v t t' h. ap (lookup k) (sym (λ i. (h i).1.1)) ∙ lookup-insert_self k v t.1;
  get_other = λ bucket k j v t t' ne h.
      ap (lookup j) (sym (λ i. (h i).1.1))
      ∙ lookup-insert k j v t.1
      ∙ ground (arith, bytes_eq_iff k j);
}

bolt_backend-BackendLaws_example :
    BackendLaws toy (bolt_backend toy toy_bolt) (HasNames toy_bolt (λ d. d))
bolt_backend-BackendLaws_example = bolt_backend-BackendLaws toy toy_bolt toy_bolt-laws

rand_string_lem_example :
    (s : Bytes) × (rand_string (65 ∷ 2 ∷ []) 2 ≡ some s) × (length s ≡ 2) × IsText s
rand_string_lem_example =
    rand_string_lem (65 ∷ 2 ∷ []) 2 (omega arith) (omega arith, (omega arith, tt))
