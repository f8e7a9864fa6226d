-- ===== src/Event/Subscriptions.antt =====
-- event/subscription.go: the callbacks of each event, by the identifier of the subscription. The maps
-- are shared by reference, so that a method returns the new state. A callback is a value of `C`.
use setinstone.Prelude.{
  ◌≡◌, refl, sym, ap, ◌∙◌, Bool, true, Option, none, some, List, [], ◌∷◌, ◌++◌, arith, Bytes,
  bytes_eq, bytes_eq_iff, bytes_eq_refl, Bool-cases, inl, inr, if◌then◌else◌,
}
use setinstone.Prelude.Assoc.{Assoc, lookup, insert, erase, lookup-insert}

-- `parent` tells whether the pointer to the subscriptions is not nil.
pub record Subscription : Type 0 where
  pub id : Bytes
  pub event_name : Bytes
  pub parent : Bool

abbrev pub Subscriptions {ℓ} : Type ℓ → Type ℓ
Subscriptions C = Assoc (Assoc C)

abbrev pub new_subscriptions {ℓ} : {C : Type ℓ} → Subscriptions C
new_subscriptions = []

module _ {ℓ} {C : Type ℓ} where
  found_or_new : Bytes → Option (Assoc C) → Subscriptions C → Assoc C × Subscriptions C
  found_or_new event_name none m = ([], insert event_name [] m)
  found_or_new event_name (some sub) m = (sub, m)

  unfoldable pub get_or_create : Bytes → Subscriptions C → Assoc C × Subscriptions C
  unfolding found_or_new
  get_or_create event_name m = found_or_new event_name (lookup event_name m) m

  -- `id` is the new UUID. The inner map is written through its reference.
  unfoldable pub subscribe : Bytes → Bytes → C → Subscriptions C → Subscription × Subscriptions C
  subscribe id event_name callback m =
      let (subs, m') = get_or_create event_name m in
      (
        record { id = id; event_name = event_name; parent = true },
        insert event_name (insert id callback subs) m',
      )

  unfoldable pub values : Assoc C → List C
  values [] = []
  values ((k, c) ∷ m) = c ∷ values m

  callbacks : Option (Assoc C) → List C
  unfolding values
  callbacks none = []
  callbacks (some sub) = values sub

  unfoldable pub get : Bytes → Subscriptions C → List C
  unfolding callbacks
  get event_name m = callbacks (lookup event_name m)

  without : Bytes → Bytes → Option (Assoc C) → Subscriptions C → Subscriptions C
  without event_name id none m = m
  without event_name id (some sub) m = insert event_name (erase id sub) m

  unfoldable pub unsubscribe : Bytes → Bytes → Subscriptions C → Subscriptions C
  unfolding without
  unsubscribe event_name id m = without event_name id (lookup event_name m) m

  -- the method of a subscription
  unfoldable pub unsubscribe_from : Subscription → Subscriptions C → Subscriptions C
  unsubscribe_from s m = if s.parent then unsubscribe s.event_name s.id m else m

  -- The subscriptions of one event.
  abbrev of_found : Option (Assoc C) → Assoc C
  of_found none = []
  of_found (some sub) = sub

  subscribed :
      (o : Option (Assoc C)) (id event_name e : Bytes) (callback : C) (m : Subscriptions C)
      → lookup e (
          insert event_name
            (insert id callback (found_or_new event_name o m).0)
            (found_or_new event_name o m).1)
        ≡ (if bytes_eq event_name e then some (insert id callback (of_found o)) else lookup e m)
  unfolding found_or_new
  subscribed none id event_name e callback m =
      lookup-insert event_name e (insert id callback []) (insert event_name [] m)
      ∙ ground (arith, lookup-insert event_name e [] m)
  subscribed (some sub) id event_name e callback m =
      lookup-insert event_name e (insert id callback sub) m

  lookup-subscribe :
      (id event_name e : Bytes) (callback : C) (m : Subscriptions C)
      → lookup e (subscribe id event_name callback m).1 ≡ (
          if bytes_eq event_name e
          then some (insert id callback (of_found (lookup event_name m)))
          else lookup e m)
  unfolding subscribe get_or_create
  lookup-subscribe id event_name e callback m =
      subscribed (lookup event_name m) id event_name e callback m

  values-insert_new :
      (id : Bytes) (callback : C) (sub : Assoc C)
      → lookup id sub ≡ none
      → values (insert id callback sub) ≡ values sub ++ callback ∷ []
  unfolding values insert lookup
  values-insert_new id callback [] fresh = refl
  values-insert_new id callback ((j, c) ∷ sub) fresh =
      ground (arith, values-insert_new id callback sub)

  erase-insert_new :
      (id : Bytes) (callback : C) (sub : Assoc C)
      → lookup id sub ≡ none
      → erase id (insert id callback sub) ≡ sub
  unfolding insert erase lookup
  erase-insert_new id callback [] fresh = rw (bytes_eq_refl id)
  erase-insert_new id callback ((j, c) ∷ sub) fresh =
      ground (arith, erase-insert_new id callback sub)

  get-found : (e : Bytes) (m : Subscriptions C) → get e m ≡ values (of_found (lookup e m))
  unfolding get callbacks values
  get-found e m = on_found (lookup e m)
    where
      on_found : (o : Option (Assoc C)) → callbacks o ≡ values (of_found o)
      on_found none = refl
      on_found (some sub) = refl

  -- No subscription of the event has the identifier.
  abbrev pub IsFresh : Bytes → Bytes → Subscriptions C → Type ℓ
  IsFresh id event_name m = lookup id (of_found (lookup event_name m)) ≡ none

  get-subscribe :
      (id event_name e : Bytes) (callback : C) (m : Subscriptions C)
      → IsFresh id event_name m
      → get e (subscribe id event_name callback m).1
        ≡ (if bytes_eq event_name e then get event_name m ++ callback ∷ [] else get e m)
  get-subscribe id event_name e callback m fresh = elim (Bool-cases (bytes_eq event_name e)) [
    | inl same ↦
        get-found e _
        ∙ ap (λ o. values (of_found o)) (lookup-subscribe id event_name e callback m)
        ∙ rw same (
            values-insert_new id callback (of_found (lookup event_name m)) fresh
            ∙ ap (λ s. s ++ callback ∷ []) (sym (get-found event_name m)))
    | inr other ↦
        get-found e _
        ∙ ap (λ o. values (of_found o)) (lookup-subscribe id event_name e callback m)
        ∙ rw other (sym (get-found e m))
  ]

  lookup-without :
      (id event_name e : Bytes) (sub : Assoc C) (m : Subscriptions C)
      → lookup event_name m ≡ some sub
      → lookup e (unsubscribe event_name id m)
        ≡ (if bytes_eq event_name e then some (erase id sub) else lookup e m)
  unfolding unsubscribe without
  lookup-without id event_name e sub m found =
      ap (λ o. lookup e (without event_name id o m)) found
      ∙ lookup-insert event_name e (erase id sub) m

  own_handle :
      (id event_name : Bytes) (callback : C) (m s : Subscriptions C)
      → unsubscribe_from (subscribe id event_name callback m).0 s ≡ unsubscribe event_name id s
  unfolding unsubscribe_from subscribe
  own_handle id event_name callback m s = refl

  get-unsubscribe :
      (id event_name e : Bytes) (callback : C) (m : Subscriptions C)
      → IsFresh id event_name m
      → get e (unsubscribe event_name id (subscribe id event_name callback m).1) ≡ get e m
  get-unsubscribe id event_name e callback m fresh =
      let after : Subscriptions C = (subscribe id event_name callback m).1 in
      let sub : Assoc C = of_found (lookup event_name m) in
      let own : lookup event_name after ≡ some (insert id callback sub) =
        lookup-subscribe id event_name event_name callback m ∙ rw (bytes_eq_refl event_name) in
      let gone =
        get-found e (unsubscribe event_name id after)
        ∙ ap (λ o. values (of_found o))
            (lookup-without id event_name e (insert id callback sub) after own) in
      elim (Bool-cases (bytes_eq event_name e)) [
        | inl same ↦
            gone
            ∙ rw same (
                ap values (erase-insert_new id callback sub fresh)
                ∙ ap (λ n. values (of_found (lookup n m))) ((bytes_eq_iff event_name e).0 same)
                ∙ sym (get-found e m))
        | inr other ↦
            gone
            ∙ rw other (
                ap (λ o. values (of_found o)) (lookup-subscribe id event_name e callback m)
                ∙ rw other (sym (get-found e m)))
      ]

  -- A subscription under an identifier that is not in use adds its callback to those of its event
  -- and changes no other event, and its `Unsubscribe` takes back exactly that.
  pub get-subscribe-unsubscribe :
      (id event_name e : Bytes) (callback : C) (m : Subscriptions C)
      → IsFresh id event_name m
      → (get e (subscribe id event_name callback m).1
          ≡ (if bytes_eq event_name e then get event_name m ++ callback ∷ [] else get e m))
        × (get e (
              unsubscribe_from
                (subscribe id event_name callback m).0
                (subscribe id event_name callback m).1)
            ≡ get e m)
  get-subscribe-unsubscribe id event_name e callback m fresh = (
    get-subscribe id event_name e callback m fresh,
    ap (get e) (own_handle id event_name callback m (subscribe id event_name callback m).1)
        ∙ get-unsubscribe id event_name e callback m fresh,
  )
