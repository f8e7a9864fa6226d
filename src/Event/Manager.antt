-- ===== src/Event/Manager.antt =====
-- event/event.go, event/manager.go and event/manager_factory.go: signed events on the topic of an address.
use setinstone.Prelude.{
  ℕ, ◌≡◌, not, Option, none, some, List, [], ◌∷◌, ◌++◌, map, Bytes, codes, bytes_eq, if◌then◌else◌,
}
use setinstone.Prelude.Action.{Action, lift, continue}
use setinstone.Prelude.Outcome.{Outcome, ok, err, panic, address_no_keys, other, ◌>>=◌, ◌>>◌}
use setinstone.Primitives.{Primitives}
use setinstone.Address.{Address, has_keys}
use setinstone.Address.Keys.{to_ecdsa_private_key}
use setinstone.Message.{Message, Payload, event, sign_with_key, verify_signature}
use setinstone.Message.Json.{Json, from_json, to_json, empty, event_type}
use setinstone.Event.Subscriptions.{
  Subscription, Subscriptions, new_subscriptions, subscribe, get, unsubscribe_from, IsFresh,
  get-subscribe-unsubscribe,
}

-- the type event of event.go, behind the interface Event
pub record Event : Type 0 where
  pub name : Bytes
  pub body : Bytes

-- The publish-subscribe interface of IPFS, on a state `S`.
pub record PubSub (S : Type 0) : Type 0 where
  pub subscribe : Bytes → Action S (Unit {0})
  pub publish : Bytes → Bytes → Action S (Unit {0})

-- `C` is the type of callbacks.
pub record Manager (C : Type 0) : Type 0 where
  pub id : Bytes
  pub name_space : Bytes
  pub signer_addr : Address
  pub managed_addr : Address
  pub subscriptions : Subscriptions C

-- A type assertion to the type event.
unfoldable pub as_event : Payload → Outcome Event
as_event (event n d) = ok (record { name = n; body = d })
as_event _ = panic

-- The error of a context that is done.
abbrev pub context_done : Outcome Event
context_done = err (other 1)

pub record ManagerFactory : Type 0 where
  pub id : Bytes
  pub name_space : Bytes

unfoldable pub new_manager_factory : Bytes → Bytes → Outcome ManagerFactory
new_manager_factory name_space id = ok (record { id = id; name_space = name_space })

module _ {J : Type 0} (p : Primitives) (j : Json J) where
  unfoldable pub new_event_from_pub_sub_message : Bytes → Outcome Event
  unfolding as_event
  new_event_from_pub_sub_message js = do
    m ← from_json j empty js (some event_type)
    verify_signature p m
    as_event m.payload

  module _ {C : Type 0} where
    unfoldable pub get_topic_name : Manager C → Bytes
    get_topic_name m = m.name_space ++ (codes "-" ++ m.managed_addr.address)

    -- The loop that it starts is `loop_operation` again and again.
    unfoldable pub new_manager :
        {S : Type 0} → PubSub S → Bytes → Bytes → Address → Address → Action S (Manager C)
    new_manager ps id name_space signer_addr managed_addr s =
        let m : Manager C = record {
          id = id;
          name_space = name_space;
          signer_addr = signer_addr;
          managed_addr = managed_addr;
          subscriptions = new_subscriptions;
        } in
        let (r, s') = ps.subscribe (get_topic_name m) s in continue r (λ _. lift (ok m)) s'

    unfoldable pub build :
        {S : Type 0} → PubSub S → ManagerFactory → Address → Address → Action S (Manager C)
    build ps f signer_addr managed_addr = new_manager ps f.id f.name_space signer_addr managed_addr

    -- `uuid` is the new identifier.
    unfoldable pub on : Bytes → Bytes → C → Manager C → Subscription × Manager C
    on uuid event_name callback m =
        let (sub, subs) = subscribe uuid event_name callback m.subscriptions in
        (sub, record m { subscriptions = subs })

    -- The message that `Emit` publishes. `now` is the formatted time, and `seed` the randomness of
    -- ecdsa.Sign.
    unfoldable pub new_message : Bytes → Bytes → Bytes → Manager C → Message
    new_message now event_name body m = record {
      timestamp = now;
      address = m.signer_addr.address;
      message_type = event_name;
      payload = event event_name body;
      public_key = [];
      signature = [];
    }

    unfoldable pub signed_event : ℕ → Bytes → Bytes → Bytes → Manager C → Outcome Bytes
    signed_event seed now event_name body m = elim m.signer_addr.keys [
      | none ↦ panic
      | some k ↦ do
        msg ← sign_with_key p seed (to_ecdsa_private_key k) (new_message now event_name body m)
        to_json j msg
    ]

    unfoldable pub emit :
        {S : Type 0} → PubSub S → ℕ → Bytes → Bytes → Bytes → Manager C → Action S (Unit {0})
    emit ps seed now event_name body m s =
        if not (has_keys m.signer_addr)
        then (err address_no_keys, s)
        else continue (signed_event seed now event_name body m) (ps.publish (get_topic_name m)) s

    -- The calls of the callbacks for one event.
    unfoldable pub dispatched : Manager C → Outcome Event → Outcome (List (C × Event))
    dispatched m (ok ev) = ok (map (λ c. (c, ev)) (get ev.name m.subscriptions))
    dispatched m (err e) = ok []
    dispatched m panic = panic

    -- One round of the event loop, on what the subscription to the topic returns: the callbacks that are
    -- called. A message of our own, and one that is no signed event, is ignored.
    unfoldable pub loop_operation : Outcome (Bytes × Bytes) → Manager C → Outcome (List (C × Event))
    loop_operation (err e) m = err e
    loop_operation panic m = panic
    loop_operation (ok (from, js)) m =
        if bytes_eq from m.id then ok [] else dispatched m (new_event_from_pub_sub_message js)

    -- The wait of `Next` for an event, over what the topic brings; the context is done behind it. The callback
    -- of `Next` is among the callbacks of its event.
    first_named : Bytes → List (C × Event) → Option Event
    first_named event_name [] = none
    first_named event_name ((c, ev) ∷ calls) =
        let rest = first_named event_name calls in
        if bytes_eq ev.name event_name then some ev else rest

    heard : Bytes → Outcome (List (C × Event)) → Outcome Event → Outcome Event
    unfolding first_named
    heard event_name (err e) rest = rest
    heard event_name panic rest = panic
    heard event_name (ok calls) rest = elim (first_named event_name calls) [
      | none ↦ rest
      | some ev ↦ ok ev
    ]

    unfoldable pub wait_for : Bytes → List (Outcome (Bytes × Bytes)) → Manager C → Outcome Event
    unfolding heard
    wait_for event_name [] m = context_done
    wait_for event_name (arrival ∷ arrivals) m =
        heard event_name (loop_operation arrival m) (wait_for event_name arrivals m)

    -- `send` is the callback that sends to the channel.
    unfoldable pub next :
        Bytes → Bytes → C → List (Outcome (Bytes × Bytes)) → Manager C → Outcome Event × Manager C
    next uuid event_name send arrivals m =
        let (sub, m') = on uuid event_name send m in
        (
          wait_for event_name arrivals m',
          record m' { subscriptions = unsubscribe_from sub m'.subscriptions },
        )

  -- Whatever arrives while `Next` waits, each event has the callbacks afterwards that it had
  -- before, when the new identifier is not in use.
  pub next-subscriptions :
      {C : Type 0} (uuid event_name e : Bytes) (send : C)
      (arrivals : List (Outcome (Bytes × Bytes))) (m : Manager C)
      → IsFresh uuid event_name m.subscriptions
      → get e (next uuid event_name send arrivals m).1.subscriptions ≡ get e m.subscriptions
  unfolding next on
  next-subscriptions uuid event_name e send arrivals m fresh =
      (get-subscribe-unsubscribe uuid event_name e send m.subscriptions fresh).1
