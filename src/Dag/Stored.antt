-- ===== src/Dag/Stored.antt =====
-- What the writes of a node leave in the state: the node under its key, and the names that resolve
-- to that key.
use setinstone.Prelude.{
  Bool, ◌≡◌, ◌≢◌, ◌⊎◌, inl, inr, refl, sym, ap, ◌∙◌, subst, List, [], ◌∷◌, true, false, some, Bytes,
  bytes_eq, bytes_eq_iff, Bool-cases, arith,
}
use setinstone.Prelude.Outcome.{ok}
use setinstone.Prelude.Action.{Action, run-bind}
use setinstone.Dag.Node.{Node}
use setinstone.Dag.Core.{
  Dag, translate, any_eq, get_last_node_name, get_node_by_key, get_last, resolve_node_key,
}
use setinstone.Dag.Write.{translated, add_resolutions}
use setinstone.Dag.Laws.{IsBacked}
use setinstone.Dag.Accept.{translate-eq-ok}

module _ {S : Type 0} (da : Dag S) where
  pub translated-eq-ok :
      {A : Type 0} (m : Action S A) (s : S) {a : A} {s' : S}
      → translated da m s ≡ (ok a, s')
      → m s ≡ (ok a, s')
  unfolding translated
  translated-eq-ok m s h = λ i. (translate-eq-ok (m s).0 (λ j. (h j).0) i, (h i).1)

  -- `t` comes from `s` by adding names for `key`: every name resolves as before or to the key.
  pub record Named (s t : S) (key : Bytes) : Type 0 where
    pub reads : (k : Bytes) → da.dt.get k t ≡ da.dt.get k s
    pub names :
        (name : Bytes)
        → (da.resolver.resolve name t ≡ ok key)
          ⊎ (da.resolver.resolve name t ≡ da.resolver.resolve name s)

  pub Named-refl : (s : S) (key : Bytes) → Named s s key
  Named-refl s key = record { reads = λ k. refl; names = λ name. inr refl }

  pub Named-trans : {s t u : S} {key : Bytes} → Named s t key → Named t u key → Named s u key
  Named-trans {s} {t} {u} {key} a b = record {
    reads = λ k. b.reads k ∙ a.reads k;
    names = λ name. join_names name (b.names name) (a.names name);
  }
    where
      join_names :
          (name : Bytes)
          → (da.resolver.resolve name u ≡ ok key)
            ⊎ (da.resolver.resolve name u ≡ da.resolver.resolve name t)
          → (da.resolver.resolve name t ≡ ok key)
            ⊎ (da.resolver.resolve name t ≡ da.resolver.resolve name s)
          → (da.resolver.resolve name u ≡ ok key)
            ⊎ (da.resolver.resolve name u ≡ da.resolver.resolve name s)
      join_names name (inl e) _ = inl e
      join_names name (inr e) (inl f) = inl (e ∙ f)
      join_names name (inr e) (inr f) = inr (e ∙ f)

  -- A name that resolves to the key goes on to do so.
  pub stays-Named :
      {s t : S} {key : Bytes} (name : Bytes)
      → Named s t key
      → da.resolver.resolve name s ≡ ok key
      → da.resolver.resolve name t ≡ ok key
  stays-Named {s} {t} {key} name n h = pick (n.names name)
    where
      pick :
          (da.resolver.resolve name t ≡ ok key)
            ⊎ (da.resolver.resolve name t ≡ da.resolver.resolve name s)
          → da.resolver.resolve name t ≡ ok key
      pick (inl e) = e
      pick (inr e) = e ∙ h

module _ {S : Type 0} (da : Dag S) {is_text : Node → Bool} (laws : IsBacked da is_text) where
  pub add-Named :
      (name key : Bytes) (s t : S) → da.resolver.add name key s ≡ (ok tt, t) → Named da s t key
  add-Named name key s t h = record {
    reads = λ k. laws.add_get name key s t (ok tt) k h;
    names = λ other. elim (Bool-cases (bytes_eq other name)) [
      | inl e ↦ inl (
          ap (λ n. da.resolver.resolve n t) ((bytes_eq_iff other name).0 e)
          ∙ laws.add_resolve name key s t h)
      | inr e ↦
          inr (laws.add_keeps name key other s t h (λ q. cc (e, (bytes_eq_iff other name).1 q)))
    ];
  }

  pub add_resolutions-Named :
      (branches : List Bytes) (n : Node) (key : Bytes) (s t : S)
      → add_resolutions da branches n key s ≡ (ok tt, t)
      → Named da s t key
        × ((branch : Bytes)
            → any_eq branch branches ≡ true
            → da.resolver.resolve (get_last_node_name da n key branch) t ≡ ok key)
  unfolding add_resolutions any_eq
  add_resolutions-Named [] n key s t h =
      (subst (λ u. Named da s u key) (λ i. (h i).1) (Named-refl da s key), λ branch e. cc e)
  add_resolutions-Named (b ∷ rest) n key s t h =
      let name : Bytes = get_last_node_name da n key b in
      let (_, u, added, more) =
        run-bind (da.resolver.add name key) (λ _. add_resolutions da rest n key) s h in
      let (named, listed) = add_resolutions-Named rest n key u t more in
      (
        Named-trans da (add-Named name key s u added) named,
        λ branch e. elim (Bool-cases (bytes_eq b branch)) [
          | inl q ↦
              ap (λ c. da.resolver.resolve (get_last_node_name da n key c) t)
                (sym ((bytes_eq_iff b branch).0 q))
              ∙ stays-Named da name named (laws.add_resolve name key s u added)
          | inr q ↦ listed branch (ground arith)
        ],
      )

module _ {S : Type 0} (da : Dag S) where
  -- The head of a branch, from the root and the name that resolves.
  pub get_last-found :
      (s : S) (root n : Node) (root_key branch key : Bytes)
      → branch ≢ []
      → get_node_by_key da s root_key ≡ ok (some root)
      → da.resolver.resolve (get_last_node_name da root root_key branch) s ≡ ok key
      → get_node_by_key da s key ≡ ok (some n)
      → get_last da s root_key branch ≡ ok (some n, key)
  unfolding get_last resolve_node_key translate
  get_last-found s root n root_key branch key ne found resolved read =
      let named : bytes_eq branch [] ≡ false = ground (arith, bytes_eq_iff branch []) in
      rw (named, found, resolved, read)
