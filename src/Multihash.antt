-- ===== src/Multihash.antt =====
-- internal/multihash/id.go: identifiers of content. The packages go-cid, go-multicodec and go-multihash
-- are a parameter.
use setinstone.Prelude.{ℕ, ◌≡◌, refl, sym, ap, ◌∙◌, [], Bool, true, false, if◌then◌else◌, Bytes}
use setinstone.Prelude.Action.{Action}
use setinstone.Prelude.Outcome.{Outcome, ok, err, panic, ◌>>=◌}

-- cid.Prefix
pub record Prefix : Type 0 where
  pub version : ℕ
  pub codec : ℕ
  pub mh_type : ℕ
  pub mh_length : ℕ

pub record Cids (Cid : Type 0) : Type 0 where
  -- the constants mc.Cidv2 and mh.SHA2_256
  pub cidv2 : ℕ
  pub sha2_256 : ℕ
  -- the zero value of cid.Cid, cid.Decode, and the methods Sum of a prefix and Prefix, Defined,
  -- String and Hash of a cid
  pub undefined : Cid
  pub decode : Bytes → Outcome Cid
  pub sum : Prefix → Bytes → Outcome Cid
  pub prefix : Cid → Prefix
  pub defined : Cid → Bool
  pub string : Cid → Bytes
  pub hash : Cid → Bytes
  -- the digest of what mh.Decode returns
  pub mh_decode : Bytes → Outcome Bytes

pub record CidsLaws {Cid : Type 0} (c : Cids Cid) : Type 0 where
  pub sum_defined : (p : Prefix) (s : Bytes) (x : Cid) → c.sum p s ≡ ok x → c.defined x ≡ true
  -- a cid that is defined is read back from its text
  pub decode_string : (x : Cid) → c.defined x ≡ true → c.decode (c.string x) ≡ ok x
  pub undefined_lem : c.defined c.undefined ≡ false

-- the type id of id.go, behind the interface Id
pub record Identifier (Cid : Type 0) : Type 0 where
  pub pref : Prefix
  pub cid : Cid

module _ {Cid : Type 0} (c : Cids Cid) where
  unfoldable pub new_id : Identifier Cid
  new_id = record {
    pref = record { version = 0; codec = c.cidv2; mh_type = c.sha2_256; mh_length = 32 };
    cid = c.undefined;
  }

  unfoldable pub new_id_from_string : Bytes → Outcome (Identifier Cid)
  new_id_from_string v = do x ← c.decode v; ok (record { pref = c.prefix x; cid = x })

  -- the identifier behind Sum
  abbrev stored_cid : Identifier Cid → Outcome Cid → Outcome (Unit {0}) × Identifier Cid
  stored_cid i (err e) = (err e, i)
  stored_cid i panic = (panic, i)
  stored_cid i (ok x) = (ok tt, record i { cid = x })

  unfoldable pub set_data : Bytes → Action (Identifier Cid) (Unit {0})
  set_data s i = stored_cid i (c.sum i.pref s)

  unfoldable pub to_string : Identifier Cid → Bytes
  to_string i = if c.defined i.cid then c.string i.cid else []

  unfoldable pub cid_of : Identifier Cid → Cid
  cid_of i = i.cid

  unfoldable pub digest : Identifier Cid → Outcome Bytes
  digest i = if c.defined i.cid then c.mh_decode (c.hash i.cid) else ok []

module _ {Cid : Type 0} (c : Cids Cid) (laws : CidsLaws c) where
  stored_cid-eq-ok :
      (i j : Identifier Cid) (o : Outcome Cid)
      → stored_cid c i o ≡ (ok tt, j)
      → (x : Cid) × (o ≡ ok x) × (j ≡ record i { cid = x })
  stored_cid-eq-ok i j (ok x) h = (x, refl, sym (ap (λ r. r.1) h))
  stored_cid-eq-ok i j (err e) h = cc
  stored_cid-eq-ok i j panic h = cc

  -- An identifier that SetData has filled is read back from its text, with the same cid and digest.
  pub new_id_from_string-to_string :
      (s : Bytes) (i j : Identifier Cid)
      → set_data c s i ≡ (ok tt, j)
      → (k : Identifier Cid) × (new_id_from_string c (to_string c j) ≡ ok k)
        × (k.cid ≡ j.cid)
        × (digest c k ≡ digest c j)
  unfolding set_data new_id_from_string to_string digest
  new_id_from_string-to_string s i j h =
      let (x, made, e) = stored_cid-eq-ok i j (c.sum i.pref s) h in
      let full : c.defined j.cid ≡ true =
        ap (λ (t : Identifier Cid). c.defined t.cid) e ∙ laws.sum_defined i.pref s x made in
      (
        record { pref = c.prefix j.cid; cid = j.cid },
        rw (full, laws.decode_string j.cid full),
        refl,
        refl,
      )
