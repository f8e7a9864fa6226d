-- ===== src/Resolver/Backend/Bolt.antt =====
-- resolver/bolt_backend.go: the backend over a database of go.etcd.io/bbolt, which is a parameter.
use setinstone.Prelude.{
  ◌≡◌, ◌≢◌, refl, sym, ap, ◌∙◌, Bool, true, Option, none, some, [], Bytes, codes, if◌then◌else◌,
}
use setinstone.Prelude.Action.{Action, continue}
use setinstone.Prelude.Outcome.{Outcome, ok, err, panic, name_not_found, ◌>>=◌}
use setinstone.Primitives.{Primitives}
use setinstone.Resolver.{get_query_name_request_from_name}
use setinstone.Resolver.Backend.{Backend, BackendLaws}

-- bbolt: `D` is the database and `T` a transaction.
pub record Bolt (D T : Type 0) : Type 0 where
  pub update : Action T (Unit {0}) → Action D (Unit {0})
  pub view : (T → Outcome Bytes) → D → Outcome Bytes
  pub create_bucket_if_not_exists : Bytes → Action T (Unit {0})
  -- the bucket is not nil
  pub has_bucket : Bytes → T → Bool
  -- Put and Get of a bucket; `none` is nil
  pub put : Bytes → Bytes → Bytes → Action T (Unit {0})
  pub get : Bytes → Bytes → T → Option Bytes

-- What bbolt documents: `begun` is what a transaction sees, an update is committed only if its function
-- and the commit succeed, and a bucket is a map.
pub record BoltLaws {D T : Type 0} (db : Bolt D T) (begun : D → T) : Type 0 where
  pub update_run :
      (f : Action T (Unit {0})) (d d' : D)
      → db.update f d ≡ (ok tt, d')
      → f (begun d) ≡ (ok tt, begun d')
  pub view_run : (f : T → Outcome Bytes) (d : D) → db.view f d ≡ f (begun d)
  pub bucket_created :
      (bucket : Bytes) (t t' : T)
      → db.create_bucket_if_not_exists bucket t ≡ (ok tt, t')
      → db.has_bucket bucket t' ≡ true
  pub bucket_put :
      (bucket k v : Bytes) (t t' : T)
      → db.put bucket k v t ≡ (ok tt, t')
      → db.has_bucket bucket t ≡ true
      → db.has_bucket bucket t' ≡ true
  pub get_put :
      (bucket k v : Bytes) (t t' : T)
      → db.put bucket k v t ≡ (ok tt, t')
      → db.get bucket k t' ≡ some v
  pub get_other :
      (bucket k j v : Bytes) (t t' : T)
      → j ≢ k
      → db.put bucket k v t ≡ (ok tt, t')
      → db.get bucket j t' ≡ db.get bucket j t

abbrev pub names_bucket : Bytes
names_bucket = codes "resolver_names"

-- The bucket of names is there.
abbrev pub HasNames : {D T : Type 0} → Bolt D T → (D → T) → D → Type 0
HasNames db begun d = db.has_bucket names_bucket (begun d) ≡ true

data_of : Option Bytes → Outcome Bytes
data_of none = err name_not_found
data_of (some value) = ok value

module _ {D T : Type 0} (p : Primitives) (db : Bolt D T) where
  -- The backend is its database.
  unfoldable pub new_bolt_backend : Action D D
  new_bolt_backend d =
      let (r, d') = db.update (db.create_bucket_if_not_exists names_bucket) d in
      continue r (λ _ d. (ok d, d)) d'

  -- the transactions of the two methods
  put_name : Bytes → Bytes → Action T (Unit {0})
  put_name name value t =
      if db.has_bucket names_bucket t then db.put names_bucket name value t else (ok tt, t)

  read_name : Bytes → T → Outcome Bytes
  unfolding data_of
  read_name name t =
      if db.has_bucket names_bucket t then data_of (db.get names_bucket name t) else ok ([])

  unfoldable pub bolt_backend : Backend D
  unfolding put_name read_name
  bolt_backend = record {
    add = λ now name value. db.update (put_name name value);
    resolve =
        λ now name d. get_query_name_request_from_name p name >>= λ _. db.view (read_name name) d;
  }

  module _ {begun : D → T} (laws : BoltLaws db begun) where
    -- What a successful `Add` did to the bucket.
    put-eq-ok :
        (name value : Bytes) (d d' : D)
        → HasNames db begun d
        → db.update (put_name name value) d ≡ (ok tt, d')
        → db.put names_bucket name value (begun d) ≡ (ok tt, begun d')
    unfolding put_name
    put-eq-ok name value d d' has h =
        let run = laws.update_run (put_name name value) d d' h in sym (rw has refl) ∙ run

    read_names :
        (name : Bytes) (d : D)
        → HasNames db begun d
        → db.view (read_name name) d ≡ data_of (db.get names_bucket name (begun d))
    unfolding read_name
    read_names name d has = laws.view_run (read_name name) d ∙ rw has refl

    kept_names :
        (name value : Bytes) (d d' : D)
        → HasNames db begun d
        → db.update (put_name name value) d ≡ (ok tt, d')
        → HasNames db begun d'
    kept_names name value d d' has h =
        laws.bucket_put names_bucket name value (begun d) (begun d')
          (put-eq-ok name value d d' has h) has

    -- The backend in a bolt database, once its bucket is there, is what a resolver relies on: an
    -- `Add` without an error keeps the bucket and makes the well-formed name resolve to its value
    -- and every other name as before.
    pub bolt_backend-BackendLaws : BackendLaws p bolt_backend (HasNames db begun)
    unfolding bolt_backend data_of
    bolt_backend-BackendLaws = record {
      add_ready = λ now name value d d' has e. kept_names name value d d' has e;
      resolve_added = λ now later name value rec d d' has parsed e.
          rw
            (
              parsed,
              read_names name d' (kept_names name value d d' has e),
              laws.get_put names_bucket name value (begun d) (begun d')
                  (put-eq-ok name value d d' has e),
            )
            refl;
      resolve_other = λ now later name other value d d' has ne e.
          rw
            (
              read_names other d' (kept_names name value d d' has e),
              read_names other d has,
              laws.get_other names_bucket name other value (begun d) (begun d') ne
                  (put-eq-ok name value d d' has e),
            )
            refl;
    }

    -- x
    pub new_bolt_backend-ready :
        (d d' b : D) → new_bolt_backend d ≡ (ok b, d') → (b ≡ d') × HasNames db begun d'
    unfolding new_bolt_backend
    new_bolt_backend-ready d d' b h = on_updated opened.0 opened.1 refl h
      where
        opened : Outcome (Unit {0}) × D
        opened = db.update (db.create_bucket_if_not_exists names_bucket) d

        on_updated :
            (o : Outcome (Unit {0})) (t : D)
            → db.update (db.create_bucket_if_not_exists names_bucket) d ≡ (o, t)
            → continue o (λ _ d. (ok d, d)) t ≡ (ok b, d')
            → (b ≡ d') × HasNames db begun d'
        on_updated (ok tt) t e g =
            let same : t ≡ d' = cc g in
            let returned : b ≡ d' = cc g in
            (
              returned,
              laws.bucket_created names_bucket (begun d) (begun d') (
                  laws.update_run (db.create_bucket_if_not_exists names_bucket) d d'
                    (e ∙ ap (λ x. (ok tt, x)) same)),
            )
        on_updated (err c) t e g = cc
        on_updated panic t e g = cc
