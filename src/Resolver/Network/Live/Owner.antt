-- ===== src/Resolver/Network/Live/Owner.antt =====
-- resolver/ipfs_resolver.go over event/manager.go: the address and its manager.
use setinstone.Prelude.{
  ℕ, zero, suc, ◌≡◌, ◌≢◌, refl, sym, ap, ◌∙◌, subst, [], ◌∷◌, ◌++◌, none, some, List, Bytes,
  get_elem?, set, Bool, true, false, bytes_eq, bytes_eq_iff, if◌then◌else◌,
}
use setinstone.Prelude.Assoc.{lookup}
use setinstone.Address.{Address}
use setinstone.Message.{query_name_request, query_name_response}
use setinstone.Cache.{MemoryCache, CacheRecord}
use setinstone.Event.Subscriptions.{get}
use setinstone.Event.Manager.{Manager}
use setinstone.Resolver.Network.{Resource}
use setinstone.Resolver.Network.Live.{Handle}

module _ {A : Type 0} where
  pub get_elem?-set_other :
      (xs : List A) (i k : ℕ) (x : A) → i ≢ k → get_elem? (set xs i x) k ≡ get_elem? xs k
  get_elem?-set_other [] i k x d = refl
  get_elem?-set_other (y ∷ xs) zero zero x d = absurd (d refl)
  get_elem?-set_other (y ∷ xs) zero (suc k) x d = refl
  get_elem?-set_other (y ∷ xs) (suc i) zero x d = refl
  get_elem?-set_other (y ∷ xs) (suc i) (suc k) x d =
      get_elem?-set_other xs i k x (λ e. d (ap suc e))

  pub get_elem?-append :
      (xs ys : List A) (i : ℕ) (x : A) → get_elem? xs i ≡ some x → get_elem? (xs ++ ys) i ≡ some x
  get_elem?-append [] ys i x e = cc
  get_elem?-append (y ∷ xs) ys zero x e = e
  get_elem?-append (y ∷ xs) ys (suc i) x e = get_elem?-append xs ys i x e

-- What a node has for an address `k`: a manager that speaks for it, with the callback once for each event,
-- behind the pointers of the resource.
pub record IsOwner (k : Bytes) (res : Resource ℕ Handle) (ms : List (Manager (Unit {0})))
    (m : Manager (Unit {0})) : Type 0 where
  pub own : res.addr.address ≡ k
  pub manager : get_elem? ms res.evm ≡ some m
  pub managed : m.managed_addr ≡ res.addr
  pub requests : get query_name_request m.subscriptions ≡ tt ∷ []
  pub responses : get query_name_response m.subscriptions ≡ tt ∷ []
  pub request_at : res.sub_name_request_event.0 ≡ res.evm
  pub response_at : res.sub_name_response_event.0 ≡ res.evm

-- Every address that is followed has its manager.
abbrev pub IsOwned : MemoryCache (Resource ℕ Handle) → List (Manager (Unit {0})) → Type 0
IsOwned c ms =
    (k : Bytes) (kept : CacheRecord (Resource ℕ Handle))
    → lookup k c.entries ≡ some kept
    → (m : Manager (Unit {0})) × IsOwner k kept.value ms m

pub some-injective {ℓ} : {A : Type ℓ} {x y : A} → some x ≡ some y → x ≡ y
some-injective e = cc e

pub of_true {ℓ} :
    {A : Type ℓ} {x z : A} {b : Bool} (y : A) → b ≡ true → (if b then x else y) ≡ z → x ≡ z
of_true y t e = sym (rw t refl) ∙ e

pub of_false {ℓ} :
    {A : Type ℓ} {y z : A} {b : Bool} (x : A) → b ≡ false → (if b then x else y) ≡ z → y ≡ z
of_false x f e = sym (rw f refl) ∙ e

pub none-some {ℓ} : {A : Type ℓ} {x : A} → none ≢ some x
none-some e = cc e

pub different : {k l : Bytes} → k ≡ l → bytes_eq k l ≢ false
different {k} {l} e f = let t : bytes_eq k l ≡ true = (bytes_eq_iff k l).1 e in cc

-- Two addresses with one manager are the same.
pub owner_unique :
    (k l : Bytes) (a b : Resource ℕ Handle) (ms : List (Manager (Unit {0})))
    (m n : Manager (Unit {0}))
    → IsOwner k a ms m
    → IsOwner l b ms n
    → a.evm ≡ b.evm
    → k ≡ l
owner_unique k l a b ms m n p q e =
    let same : m ≡ n = some-injective (sym p.manager ∙ ap (get_elem? ms) e ∙ q.manager) in
    sym p.own
    ∙ ap (λ (x : Address). x.address)
        (sym p.managed ∙ ap (λ (x : Manager (Unit {0})). x.managed_addr) same ∙ q.managed)
    ∙ q.own

pub same-IsOwner :
    {k l : Bytes} {a b : Resource ℕ Handle} (ms : List (Manager (Unit {0})))
    (m : Manager (Unit {0}))
    → k ≡ l
    → a ≡ b
    → IsOwner k a ms m
    → IsOwner l b ms m
same-IsOwner {l} {a} ms m e f p =
    subst (λ x. IsOwner l x ms m) f (subst (λ x. IsOwner x a ms m) e p)

-- Where the manager of an owner stays, the owner does.
pub moved-IsOwner :
    (k : Bytes) (a : Resource ℕ Handle) (ms ms' : List (Manager (Unit {0})))
    (m : Manager (Unit {0}))
    → IsOwner k a ms m
    → get_elem? ms' a.evm ≡ some m
    → IsOwner k a ms' m
moved-IsOwner k a ms ms' m p e = record {
  own = p.own;
  manager = e;
  managed = p.managed;
  requests = p.requests;
  responses = p.responses;
  request_at = p.request_at;
  response_at = p.response_at;
}
