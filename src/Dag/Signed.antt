-- ===== src/Dag/Signed.antt =====
-- dag/node.go: `Sign` and the tests of a node by itself.
use setinstone.Prelude.{ℕ, ◌≡◌, ◌≢◌, refl, sym, ap, ◌∙◌, subst, [], true, some, arith, Bytes}
use setinstone.Prelude.Outcome.{ok, >>=-eq-ok}
use setinstone.Primitives.{Primitives, PrimitivesLaws, EcdsaKey}
use setinstone.Hex.{encode_to_string, decode_string}
use setinstone.Hex.RoundTrip.{decode_string-encode_to_string}
use setinstone.Crypto
use setinstone.Crypto.{padded_pair, sign}
use setinstone.Crypto.RoundTrip.{IsKey, verify_signature-sign, padded_pair-IsBytes}
use setinstone.Address.{full_payload, generate_address_hash, is_valid, matches_pub_key}
use setinstone.Address.Base58.RoundTrip.{HasNonZero}
use setinstone.Address.Checksum.{matches_pub_key_iff}
use setinstone.Dag.Node.{Node, get_bytes_for_signing, sign_node, verify_signature}
use setinstone.Dag.Core.{Dag}
use setinstone.Dag.Accept.{IsSound}

module _ (p : Primitives) (laws : PrimitivesLaws p) (key : EcdsaKey) (is_key : IsKey p key) where
  decoded_good :
      (n : Node) (s k : Bytes)
      → decode_string n.signature ≡ (s, true)
      → decode_string n.pub_key ≡ (k, true)
      → Crypto.verify_signature p s k (p.sha256 (get_bytes_for_signing n)) ≡ true
      → verify_signature p n ≡ ok tt
  unfolding verify_signature
  decoded_good n s k hs hk h = rw (hs, hk) (ground arith)

  -- A node with the public key of a signing key passes `VerifySignature` when that key has signed
  -- it, and signing changes the field of the signature alone.
  pub verify_signature-sign_node :
      (seed : ℕ) (n signed : Node)
      → n.pub_key ≡ encode_to_string (padded_pair key.x key.y)
      → sign_node p seed key n ≡ ok signed
      → (verify_signature p signed ≡ ok tt) × (signed ≡ record n { signature = signed.signature })
  verify_signature-sign_node seed n signed owner h =
      let (s, made, e) =
        >>=-eq-ok (sign p seed (p.sha256 (get_bytes_for_signing n)) key)
          (λ s. ok (record n { signature = encode_to_string s })) {b = signed}
          (unfold sign_node in h) in
      let same : record n { signature = encode_to_string s } ≡ signed = cc e in
      let (s_bytes, good) =
        verify_signature-sign p laws seed (p.sha256 (get_bytes_for_signing n)) key s is_key made in
      subst (λ t. (verify_signature p t ≡ ok tt) × (t ≡ record n { signature = t.signature })) same
        (
          decoded_good (record n { signature = encode_to_string s }) s (padded_pair key.x key.y)
              (decode_string-encode_to_string s s_bytes)
              (ap decode_string owner
                ∙ decode_string-encode_to_string (padded_pair key.x key.y)
                    (padded_pair-IsBytes key.x key.y))
              (unfold get_bytes_for_signing in good),
          refl,
        )

module _ {S : Type 0} (da : Dag S) (laws : PrimitivesLaws da.prims) where
  -- A node with the address and the public key of its owner, a branch, a sequence number that is
  -- not zero and a time stamp that parses passes all of the tests that `VerifyNode` makes of a node
  -- by itself once its owner has signed it, when the hash and the checksum of the key are not all
  -- zero.
  pub sign_node-IsSound :
      (key : EcdsaKey) (seed t : ℕ) (n signed : Node)
      → IsKey da.prims key
      → HasNonZero (full_payload da.prims (padded_pair key.x key.y))
      → n.pub_key ≡ encode_to_string (padded_pair key.x key.y)
      → generate_address_hash da.prims (padded_pair key.x key.y) ≡ ok n.address
      → da.prims.parse_time n.timestamp ≡ some t
      → n.seq ≢ 0
      → n.branch ≢ []
      → sign_node da.prims seed key n ≡ ok signed
      → IsSound da signed
  sign_node-IsSound key seed t n signed is_key nonzero owner home time seq branch h =
      let p : Primitives = da.prims in
      let (good, same) = verify_signature-sign_node p laws key is_key seed n signed owner h in
      let point : Bytes = padded_pair key.x key.y in
      let (iff, valid) =
        matches_pub_key_iff p laws point n.address (padded_pair-IsBytes key.x key.y) nonzero in
      let match : matches_pub_key p n.address (encode_to_string point) ≡ ok true = iff.1 home in
      record {
        address_valid = ap (λ m. is_valid p m.address) same ∙ valid match;
        key_matches =
            ap (λ m. matches_pub_key p m.address m.pub_key) same
            ∙ ap (matches_pub_key p n.address) owner
            ∙ match;
        time_parses = (t, ap (λ m. p.parse_time m.timestamp) same ∙ time);
        seq_counts = subst (λ m. m.seq ≢ 0) (sym same) seq;
        signed = good;
        branch_named = subst (λ m. m.branch ≢ []) (sym same) branch;
      }
