-- ===== src/Address/Checksum.antt =====
-- address/address.go: `IsValid`, `generateAddressHash` and `MatchesPubKey`.
use setinstone.Prelude.{
  ℕ, zero, suc, ◌-◌, ◌<◌, ◌≡◌, ◌≢◌, ◌↔◌, refl, sym, ap, ◌∙◌, [], ◌∷◌, ◌++◌, true, false, arith,
  Bytes, bytes_eq, bytes_eq_iff, bytes_eq_refl, leb, All-append, length, take, drop, length-append,
  length-take, take-append-drop, take-length_append, drop-length_append,
}
use setinstone.Prelude.Outcome.{ok, >>=-eq-ok}
use setinstone.Primitives.{Primitives, PrimitivesLaws}
use setinstone.Hex.{encode_to_string}
use setinstone.Hex.RoundTrip.{decode_string-encode_to_string}
use setinstone.Address.{
  checksum, hash_pub_key, full_payload, generate_address_hash, is_valid, check_payload,
  matches_pub_key,
}
use setinstone.Address.Base58.{base58_decode, base58_encode}
use setinstone.Address.Base58.RoundTrip.{
  IsBytes, HasNonZero, base58_decode-base58_encode, base58_decode_of_encoded,
}
use setinstone.Address.Base58.Malformed.{base58_decode-ones}

take-All : (n : ℕ) (s : Bytes) → IsBytes s → IsBytes (take n s)
take-All zero s h = tt
take-All (suc n) [] h = tt
take-All (suc n) (c ∷ s) h = (h.0, take-All n s h.1)

is_valid-check_payload :
    (p : Primitives) (addr d : Bytes)
    → base58_decode addr ≡ ok d
    → is_valid p addr ≡ check_payload p d
unfolding is_valid
is_valid-check_payload p [] d e = cc (base58_decode-ones 0)
is_valid-check_payload p (c ∷ addr) d e = rw e (ground arith)

long_enough :
    (p : Primitives) (d : Bytes)
    → check_payload p d ≡ ok tt
    → (leb (length d) 4 ≡ false) × (checksum p (take (length d - 4) d) ≡ drop (length d - 4) d)
long_enough p d h =
    ground (arith, bytes_eq_iff (checksum p (take (length d - 4) d)) (drop (length d - 4) d))

module _ (p : Primitives) (laws : PrimitivesLaws p) where
  length-checksum : (s : Bytes) → length (checksum p s) ≡ 4
  unfolding checksum
  length-checksum s =
      omega (arith, length-take 4 (p.sha256 (p.sha256 s)), laws.sha256_length (p.sha256 s))

  check_payload_sound :
      (d : Bytes)
      → check_payload p d ≡ ok tt
      → (payload : Bytes) × (payload ≢ []) × (d ≡ payload ++ checksum p payload)
  check_payload_sound d h =
      let (long, same) = long_enough p d h in
      let n : ℕ = length d - 4 in
      (
        take n d,
        λ e. absurd (ground (arith, ap length e, length-take n d)),
        sym (take-append-drop n d) ∙ ap (λ r. take n d ++ r) (sym same),
      )

  check_payload_complete : (s : Bytes) → s ≢ [] → check_payload p (s ++ checksum p s) ≡ ok tt
  check_payload_complete [] ne = absurd (ne refl)
  check_payload_complete (c ∷ s) ne =
      let t : Bytes = c ∷ s in
      let n : length (t ++ checksum p t) - 4 ≡ length t =
        omega (arith, length-append t (checksum p t), length-checksum t) in
      let long : leb (length (t ++ checksum p t)) 4 ≡ false =
        ground (arith, length-append t (checksum p t), length-checksum t) in
      rw (
        long,
        n,
        take-length_append (length t) t (checksum p t) refl,
        drop-length_append (length t) t (checksum p t) refl,
        bytes_eq_refl (checksum p t),
      )

  is_valid-decodes :
      (addr : Bytes)
      → is_valid p addr ≡ ok tt
      → (d : Bytes) × (base58_decode addr ≡ ok d) × (check_payload p d ≡ ok tt)
  unfolding is_valid
  is_valid-decodes [] h = cc
  is_valid-decodes (c ∷ addr) h =
      >>=-eq-ok (base58_decode (c ∷ addr)) (check_payload p) (ground arith)

  -- An address is valid exactly when it decodes to a payload that is not empty with the first four
  -- bytes of the payload's double SHA-256 behind it.
  pub is_valid_iff :
      (addr : Bytes)
      → (is_valid p addr ≡ ok tt) ↔ (
          (payload : Bytes) × (payload ≢ [])
          × (base58_decode addr ≡ ok (payload ++ checksum p payload)))
  is_valid_iff addr = (
    (λ h.
        let (d, e, good) = is_valid-decodes addr h in
        let (s, ne, eq) = check_payload_sound d good in (s, ne, e ∙ ap ok eq)),
    (λ (s, ne, e).
        is_valid-check_payload p addr (s ++ checksum p s) e ∙ check_payload_complete s ne),
  )

  full_payload-IsBytes : (pk : Bytes) → IsBytes (full_payload p pk)
  unfolding hash_pub_key checksum
  full_payload-IsBytes pk =
      let body : Bytes = 0 ∷ p.ripemd160 (p.sha256 pk) in
      All-append (λ c. c < 256) body (take 4 (p.sha256 (p.sha256 body)))
        (omega arith, laws.ripemd160_bytes (p.sha256 pk))
        (take-All 4 (p.sha256 (p.sha256 body)) (laws.sha256_bytes (p.sha256 body)))

  pub generated-IsValid : (pk a : Bytes) → generate_address_hash p pk ≡ ok a → is_valid p a ≡ ok tt
  unfolding generate_address_hash
  generated-IsValid pk a e = (is_valid_iff a).1 (
    0 ∷ hash_pub_key p pk,
    (λ q. cc q),
    base58_decode_of_encoded (full_payload p pk) a (full_payload-IsBytes pk) e,
  )

  -- The address of a public key, unless its hash and checksum are all zero, is returned, is valid,
  -- and decodes to the version, the hash of the key and the checksum.
  pub generate_address_hash-IsValid :
      (pk : Bytes)
      → HasNonZero (full_payload p pk)
      → (a : Bytes) × (generate_address_hash p pk ≡ ok a)
        × (is_valid p a ≡ ok tt)
        × (base58_decode a ≡ ok (full_payload p pk))
  generate_address_hash-IsValid pk h =
      let bytes : IsBytes (full_payload p pk) = full_payload-IsBytes pk in
      let (a, e, d) =
        >>=-eq-ok (base58_encode (full_payload p pk)) base58_decode
          (base58_decode-base58_encode (full_payload p pk) bytes h) in
      (
        a,
        unfold generate_address_hash in e,
        unfold generate_address_hash in generated-IsValid pk a e,
        d,
      )

  pub matches-generated :
      (pk addr a : Bytes)
      → IsBytes pk
      → generate_address_hash p pk ≡ ok a
      → matches_pub_key p addr (encode_to_string pk) ≡ ok (bytes_eq addr a)
  unfolding matches_pub_key
  matches-generated pk addr a bytes e = rw (decode_string-encode_to_string pk bytes) (rw e refl)

  -- An address matches a key, written in hexadecimal, exactly when it is generated from that key,
  -- unless the key's hash and checksum are all zero; and an address that matches is valid.
  pub matches_pub_key_iff :
      (pk addr : Bytes)
      → IsBytes pk
      → HasNonZero (full_payload p pk)
      → ((matches_pub_key p addr (encode_to_string pk) ≡ ok true)
          ↔ (generate_address_hash p pk ≡ ok addr))
        × (matches_pub_key p addr (encode_to_string pk) ≡ ok true → is_valid p addr ≡ ok tt)
  matches_pub_key_iff pk addr bytes h =
      let (a, e, valid, _) = generate_address_hash-IsValid pk h in
      let test = matches-generated pk addr a bytes e in
      let to = λ (m : matches_pub_key p addr (encode_to_string pk) ≡ ok true).
        e ∙ ap ok (sym ((bytes_eq_iff addr a).0 (cc (test, m)))) in
      (
        (to, λ g. test ∙ ap ok ((bytes_eq_iff addr a).1 (cc (g, e)))),
        λ m. generated-IsValid pk addr (to m),
      )
