-- ===== src/Prelude/Outcome.antt =====
-- The outcome of a Go function: its results, the error it returns, or a run-time panic (a nil
-- dereference or an index out of range). The errors are the sentinels that `errors.Is` compares,
-- and `other` for those that the libraries make.
use Prim.Native.Nat.{ℕ}
use mathlib.Core.Path.{◌≡◌, refl}

pub data Error : Type 0 where
  -- datastore/errors.go, resolver/errors.go, address/errors.go, message/errors.go, event/errors.go
  data_not_found : Error
  invalid_name invalid_addr_component no_private_key unmanaged_address name_not_found : Error
  invalid_checksum message_signature_mismatch address_no_keys : Error
  -- dag/errors.go
  dag_already_initialized invalid_node_timestamp node_not_found previous_node_not_found : Error
  head_node_not_found previous_node_is_not_head address_does_not_match_pub_key : Error
  invalid_branch_seq invalid_branch branch_root_not_found default_branch_not_specified : Error
  unable_to_decode_node_signature unable_to_decode_node_pub_key : Error
  node_signature_does_not_match : Error
  -- graph/errors.go
  already_initialized graph_not_found previous_not_found read_only : Error
  -- an error of a library, by a number
  other : ℕ → Error

pub data Outcome {ℓ} (A : Type ℓ) : Type ℓ where
  ok : A → Outcome A
  err : Error → Outcome A
  panic : Outcome A

infixl 5 ◌>>=◌ ◌>>◌
abbrev pub ◌>>=◌ {ℓ κ} : {A : Type ℓ} {B : Type κ} → Outcome A → (A → Outcome B) → Outcome B
ok a >>= f = f a
err e >>= f = err e
panic >>= f = panic

abbrev pub ◌>>◌ {ℓ} : {B : Type ℓ} → Outcome (Unit {0}) → Outcome B → Outcome B
m >> k = m >>= λ _. k

-- What a successful bind went through.
pub >>=-eq-ok {ℓ κ} :
    {A : Type ℓ} {B : Type κ} (first : Outcome A) (next : A → Outcome B) {b : B}
    → (first >>= next) ≡ ok b
    → (x : A) × (first ≡ ok x) × (next x ≡ ok b)
>>=-eq-ok panic next run = cc
>>=-eq-ok (err _) next run = cc
>>=-eq-ok (ok x) next run = (x, refl, run)
