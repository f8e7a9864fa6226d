-- ===== src/Event/Delivery.antt =====
-- event/manager.go: `Emit` of one manager and the event loop of another.
use setinstone.Prelude.{
  ℕ, ◌≡◌, ◌≢◌, refl, sym, ap, ◌∙◌, Bool, if◌then◌else◌, not, true, false, some, map, Bytes,
  bytes_eq, bytes_eq_iff, Bool-cases, inl, inr,
}
use setinstone.Prelude.Assoc.{Assoc}
use setinstone.Prelude.Action.{continue}
use setinstone.Prelude.Outcome.{Outcome, ok, err, panic, address_no_keys, ◌>>=◌, >>=-eq-ok}
use setinstone.Primitives.{Primitives, PrimitivesLaws, EcdsaKey}
use setinstone.Crypto.{padded_pair}
use setinstone.Crypto.RoundTrip.{IsKey}
use setinstone.Address.{has_keys}
use setinstone.Address.Keys.{of_ecdsa_key, to_ecdsa_private_key-of_ecdsa_key}
use setinstone.Message.{
  Message, Payload, event, bytes, payload_bytes, sign_with_key, verify_signature,
}
use setinstone.Message.Json.{
  Json, JsonLaws, has_type, from_json, to_json, empty, event_type, from_json-to_json,
}
use setinstone.Message.Signature.{verify_signature-sign_with_key, sign_with_key-eq-ok}
use setinstone.Event.Subscriptions.{get}
use setinstone.Event.Manager.{
  Event, PubSub, Manager, as_event, new_event_from_pub_sub_message, get_topic_name, new_message,
  signed_event, emit, loop_operation, dispatched,
}

module _ {J : Type 0} (p : Primitives) (j : Json J) where
  module _ {C : Type 0} {is_text : Message → Bool} {members : Message → Assoc J}
      (laws : PrimitivesLaws p) (j_laws : JsonLaws j is_text members) where
    signed_with :
        (seed : ℕ) (key : EcdsaKey) (now name body : Bytes) (a : Manager C)
        → IsKey p key
        → a.signer_addr.keys ≡ some (of_ecdsa_key key)
        → signed_event p j seed now name body a
          ≡ (sign_with_key p seed key (new_message p j now name body a) >>= to_json j)
    unfolding signed_event
    signed_with seed key now name body a is_key own =
        rw (own, to_ecdsa_private_key-of_ecdsa_key key is_key.x_fits is_key.y_fits) refl

    -- A signed event is read back.
    event_read :
        (seed : ℕ) (key : EcdsaKey) (now name body js : Bytes) (a : Manager C)
        → IsKey p key
        → a.signer_addr.keys ≡ some (of_ecdsa_key key)
        → is_text (new_message p j now name body a) ≡ true
        → signed_event p j seed now name body a ≡ ok js
        → new_event_from_pub_sub_message p j js ≡ ok (record { name = name; body = body })
    unfolding new_event_from_pub_sub_message as_event
    event_read seed key now name body js a is_key own utf8 h =
        let msg : Message = new_message p j now name body a in
        let (signed, made, written) =
          >>=-eq-ok (sign_with_key p seed key msg) (to_json j) {b = js}
            (sym (signed_with seed key now name body a is_key own) ∙ h) in
        let (s, same) = sign_with_key-eq-ok p seed key msg signed made in
        let kept : is_text signed ≡ true =
          ap is_text same ∙ j_laws.text_signed msg (padded_pair key.x key.y) s utf8 in
        let pay : signed.payload ≡ event name body =
          ap (λ m. m.payload) same ∙ unfold new_message in refl in
        rw
          (
            from_json-to_json j j_laws signed js event_type kept
                (ap (λ q. has_type q event_type) pay) written,
            (verify_signature-sign_with_key p laws seed key msg signed is_key made).0,
            pay,
          )
          refl

    emitted :
        {S : Type 0} (ps : PubSub S) (seed : ℕ) (now name body : Bytes) (a : Manager C) (s s' : S)
        → emit p j ps seed now name body a s ≡ (ok tt, s')
        → (js : Bytes) × (signed_event p j seed now name body a ≡ ok js)
          × (ps.publish (get_topic_name p j a) js s ≡ (ok tt, s'))
    unfolding emit
    emitted {S} ps seed now name body a s s' h = on_keys (has_keys a.signer_addr) h
      where
        on_signed :
            (o : Outcome Bytes)
            → signed_event p j seed now name body a ≡ o
            → continue o (ps.publish (get_topic_name p j a)) s ≡ (ok tt, s')
            → (js : Bytes) × (signed_event p j seed now name body a ≡ ok js)
              × (ps.publish (get_topic_name p j a) js s ≡ (ok tt, s'))
        on_signed (ok js) e g = (js, e, g)
        on_signed (err c) e g = cc
        on_signed panic e g = cc

        on_keys :
            (b : Bool)
            → (if not b
                then (err address_no_keys, s)
                else continue
                    (signed_event p j seed now name body a)
                    (ps.publish (get_topic_name p j a))
                    s)
              ≡ (ok tt, s')
            → (js : Bytes) × (signed_event p j seed now name body a ≡ ok js)
              × (ps.publish (get_topic_name p j a) js s ≡ (ok tt, s'))
        on_keys true g = on_signed (signed_event p j seed now name body a) refl g
        on_keys false g = cc

    -- What `Emit` publishes without an error, signed by the manager's own key and of UTF-8 text, is
    -- text for which one round of another manager's event loop calls each callback of that event
    -- with the name and the data, when the sender is not that manager itself.
    pub loop_operation-emit :
        {S : Type 0} (ps : PubSub S) (seed : ℕ) (key : EcdsaKey) (now name body from : Bytes)
        (a b : Manager C) (s s' : S)
        → IsKey p key
        → a.signer_addr.keys ≡ some (of_ecdsa_key key)
        → is_text (new_message p j now name body a) ≡ true
        → emit p j ps seed now name body a s ≡ (ok tt, s')
        → from ≢ b.id
        → (js : Bytes) × (ps.publish (get_topic_name p j a) js s ≡ (ok tt, s'))
          × (loop_operation p j (ok (from, js)) b
              ≡ ok (map (λ c. (c, record { name = name; body = body })) (get name b.subscriptions)))
    unfolding loop_operation dispatched
    loop_operation-emit ps seed key now name body from a b s s' is_key own utf8 h other =
        let (js, signed, published) = emitted ps seed now name body a s s' h in
        (
          js,
          published,
          elim (Bool-cases (bytes_eq from b.id)) [
            | inl e ↦ absurd (other ((bytes_eq_iff from b.id).0 e))
            | inr e ↦ rw (e, event_read seed key now name body js a is_key own utf8 signed) refl
          ],
        )

  verified-renamed :
      (m : Message) (n n' d : Bytes)
      → verify_signature p (record m { payload = event n d })
        ≡ verify_signature p (record m { payload = event n' d })
  unfolding verify_signature bytes payload_bytes
  verified-renamed m n n' d = refl

  same_payload : (m : Message) (q : Payload) → m.payload ≡ q → m ≡ record m { payload = q }
  same_payload m q e = ap (λ x. record m { payload = x }) e

  -- The name of an event is not signed: when a published text is taken as an event, a text that
  -- says the same but for the event's name is taken as an event of that name.
  pub new_event_from_pub_sub_message-renamed :
      (js forged : Bytes) (m : Message) (n n' d : Bytes) (ev : Event)
      → from_json j empty js (some event_type) ≡ ok m
      → m.payload ≡ event n d
      → new_event_from_pub_sub_message p j js ≡ ok ev
      → from_json j empty forged (some event_type) ≡ ok (record m { payload = event n' d })
      → new_event_from_pub_sub_message p j forged ≡ ok (record { name = n'; body = d })
  unfolding new_event_from_pub_sub_message as_event
  new_event_from_pub_sub_message-renamed js forged m n n' d ev read pay h reread =
      let taken : (verify_signature p m >>= λ _. as_event m.payload) ≡ ok ev =
        sym (rw read refl) ∙ h in
      let (u, checked, e) =
        >>=-eq-ok (verify_signature p m) (λ _. as_event m.payload) {b = ev} taken in
      let good : verify_signature p (record m { payload = event n' d }) ≡ ok tt =
        sym (verified-renamed m n n' d)
        ∙ ap (verify_signature p) (sym (same_payload m (event n d) pay))
        ∙ checked in
      rw (reread, good) refl
