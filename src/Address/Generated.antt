-- ===== src/Address/Generated.antt =====
-- address/address.go: `New`, `NewAddressWithKeys` and the method `IsValid`.
use setinstone.Prelude.{
  ℕ, ◌≡◌, ◌≢◌, refl, sym, ap, ◌∙◌, subst, [], ◌∷◌, Bool, true, not, none, length, arith, some,
  Bytes, bytes_eq, bytes_eq_refl,
}
use setinstone.Prelude.Outcome.{Outcome, ok, ◌>>=◌, >>=-eq-ok}
use setinstone.Primitives.{EcdsaKey, Primitives, PrimitivesLaws}
use setinstone.BigInt.{big_bytes, set_bytes}
use setinstone.Hex.{encode_to_string, decode_string}
use setinstone.Hex.RoundTrip.{decode_string-encode_to_string}
use setinstone.Crypto.{padded_pair}
use setinstone.Crypto.RoundTrip.{
  IsKey, padded_pair-IsBytes, length-padded_pair, set_bytes-big_bytes,
}
use setinstone.Address.{
  Address, KeyPair, has_keys, new_address_for_keys, generate_address_hash, is_valid,
  matches_pub_key,
}
use setinstone.Address.Checksum.{generated-IsValid, matches-generated}
use setinstone.Address.Keys.{of_ecdsa_key, to_ecdsa_private_key}
use setinstone.Address.Pem.{Pem, PemLaws, new_key_pair, new_key_pair-IsKey}

unfoldable pub new : Address
new = record { keys = none; address = [] }

-- the method of an address
unfoldable pub is_valid_address : Primitives → Address → Outcome (Unit {0})
is_valid_address p a = is_valid p a.address

unfoldable pub new_address_with_keys :
    {Block : Type 0} → Primitives → Pem Block → ℕ → Outcome Address
new_address_with_keys p f seed = do keys ← new_key_pair f seed; new_address_for_keys p keys

module _ (p : Primitives) (laws : PrimitivesLaws p) where
  -- The address of a pair has the pair, and the text that is generated from the public key.
  new_address_for_keys-eq-ok :
      (k : EcdsaKey) (a : Address)
      → new_address_for_keys p (of_ecdsa_key k) ≡ ok a
      → (hash : Bytes) × (generate_address_hash p (padded_pair k.x k.y) ≡ ok hash)
        × (a ≡ record { keys = some (of_ecdsa_key k); address = hash })
  unfolding new_address_for_keys of_ecdsa_key
  new_address_for_keys-eq-ok k a h =
      let text : Bytes = encode_to_string (padded_pair k.x k.y) in
      let (hash, made, e) =
        >>=-eq-ok (generate_address_hash p (decode_string text).0)
          (λ hash. ok (record { keys = some (of_ecdsa_key k); address = hash })) {b = a} h in
      (
        hash,
        ap (λ (r : Bytes × Bool). generate_address_hash p r.0)
              (sym (
                decode_string-encode_to_string (padded_pair k.x k.y) (padded_pair-IsBytes k.x k.y)))
            ∙ made,
        cc e,
      )

  set_bytes-nil : set_bytes [] ≡ 0
  unfolding set_bytes
  set_bytes-nil = refl

  encode_to_string-cons : (s : Bytes) → s ≢ [] → not (bytes_eq (encode_to_string s) []) ≡ true
  unfolding encode_to_string bytes_eq
  encode_to_string-cons [] h = absurd (h refl)
  encode_to_string-cons (c ∷ s) h = refl

  has_keys-of_ecdsa_key :
      (k : EcdsaKey) (hash : Bytes)
      → IsKey p k
      → k.secret ≢ 0
      → has_keys (record { keys = some (of_ecdsa_key k); address = hash }) ≡ true
  unfolding has_keys of_ecdsa_key
  has_keys-of_ecdsa_key k hash is_key positive = rw (
    encode_to_string-cons (padded_pair k.x k.y) (λ e.
        absurd
          (omega (arith, ap length e, length-padded_pair k.x k.y is_key.x_fits is_key.y_fits))),
    encode_to_string-cons (big_bytes k.secret) (λ e.
        absurd (positive (sym (set_bytes-big_bytes k.secret) ∙ ap set_bytes e ∙ set_bytes-nil))),
  )

  module _ {Block : Type 0} (f : Pem Block) (f_laws : PemLaws p f) where
    -- What `NewAddressWithKeys` returns without an error has keys, is valid, matches the public key
    -- of its pair, and its pair is read back as a key that signs: its public point belongs to its
    -- secret and fits in 32 bytes each.
    pub new_address_with_keys-IsValid :
        (seed : ℕ) (a : Address)
        → new_address_with_keys p f seed ≡ ok a
        → (k : KeyPair) × (a.keys ≡ some k)
          × (has_keys a ≡ true)
          × (is_valid_address p a ≡ ok tt)
          × (matches_pub_key p a.address k.public_key ≡ ok true)
          × IsKey p (to_ecdsa_private_key k)
    unfolding new_address_with_keys is_valid_address of_ecdsa_key
    new_address_with_keys-IsValid seed a h =
        let (pair, fresh, made) =
          >>=-eq-ok (new_key_pair f seed) (new_address_for_keys p) {b = a} h in
        let (key, same, is_key, positive, back) = new_key_pair-IsKey p f f_laws seed pair fresh in
        let (hash, generated, e) =
          new_address_for_keys-eq-ok key a (ap (new_address_for_keys p) (sym same) ∙ made) in
        let bytes = padded_pair-IsBytes key.x key.y in
        (
          pair,
          ap (λ (x : Address). x.keys) e ∙ ap some (sym same),
          ap has_keys e ∙ has_keys-of_ecdsa_key key hash is_key positive,
          ap (λ (x : Address). is_valid p x.address) e
              ∙ generated-IsValid p laws (padded_pair key.x key.y) hash generated,
          rw (e, same)
              (matches-generated p laws (padded_pair key.x key.y) hash hash bytes generated
                ∙ ap ok (bytes_eq_refl hash)),
          subst (IsKey p) (sym back) is_key,
        )
