-- ===== src/Message/Signature.antt =====
-- message/messages.go: `SignWithKey`, `VerifySignature` and `GetID`.
use setinstone.Prelude.{ℕ, ◌≡◌, refl, subst, true, arith, Bytes}
use setinstone.Prelude.Outcome.{ok, >>=-eq-ok}
use setinstone.Primitives.{Primitives, PrimitivesLaws, EcdsaKey}
use setinstone.Hex.{encode_to_string, decode_string}
use setinstone.Hex.RoundTrip.{decode_string-encode_to_string}
use setinstone.Crypto
use setinstone.Crypto.{padded_pair, sign, halves}
use setinstone.Crypto.RoundTrip.{IsKey, verify_signature-sign, padded_pair-IsBytes}
use setinstone.Message.{Message, bytes, get_id, sign_with_key, verify_signature}

module _ (p : Primitives) where
  check_decoded :
      (m : Message) (s k : Bytes)
      → decode_string m.signature ≡ (s, true)
      → decode_string m.public_key ≡ (k, true)
      → Crypto.verify_signature p s k (p.sha256 (bytes m)) ≡ true
      → verify_signature p m ≡ ok tt
  unfolding verify_signature Crypto.verify_signature
  check_decoded m s k hs hk h = rw (hs, hk) (ground arith)

  -- A message that a key has signed passes `VerifySignature`, and signing keeps the message's
  -- identifier.
  pub verify_signature-sign_with_key :
      (laws : PrimitivesLaws p) (seed : ℕ) (key : EcdsaKey) (m signed : Message)
      → IsKey p key
      → sign_with_key p seed key m ≡ ok signed
      → (verify_signature p signed ≡ ok tt) × (get_id p signed ≡ get_id p m)
  verify_signature-sign_with_key laws seed key m signed is_key h =
      let keyed : Message = record m { public_key = encode_to_string (padded_pair key.x key.y) } in
      let (s, made, e) =
        >>=-eq-ok (sign p seed (p.sha256 (bytes keyed)) key)
          (λ s. ok (record keyed { signature = encode_to_string s })) {b = signed}
          (unfold sign_with_key in h) in
      let same : record keyed { signature = encode_to_string s } ≡ signed = cc e in
      let (s_bytes, good) =
        verify_signature-sign p laws seed (p.sha256 (bytes keyed)) key s is_key made in
      subst (λ t. (verify_signature p t ≡ ok tt) × (get_id p t ≡ get_id p m)) same
        (
          check_decoded (record keyed { signature = encode_to_string s }) s
              (padded_pair key.x key.y) (decode_string-encode_to_string s s_bytes)
              (decode_string-encode_to_string (padded_pair key.x key.y)
                (padded_pair-IsBytes key.x key.y))
              (unfold bytes in good),
          unfold get_id in refl,
        )

  -- What signing writes.
  pub sign_with_key-eq-ok :
      (seed : ℕ) (key : EcdsaKey) (m signed : Message)
      → sign_with_key p seed key m ≡ ok signed
      → (s : Bytes) × (signed ≡ record m {
        public_key = encode_to_string (padded_pair key.x key.y);
        signature = encode_to_string s;
      })
  sign_with_key-eq-ok seed key m signed h =
      let keyed : Message = record m { public_key = encode_to_string (padded_pair key.x key.y) } in
      let (s, made, e) =
        >>=-eq-ok (sign p seed (p.sha256 (bytes keyed)) key)
          (λ s. ok (record keyed { signature = encode_to_string s })) {b = signed}
          (unfold sign_with_key in h) in
      (s, cc e)
