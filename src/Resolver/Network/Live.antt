-- ===== src/Resolver/Network/Live.antt =====
-- resolver/ipfs_resolver.go over event/manager.go: the resolver with the event managers of the program.
-- The managers of a node stand in a list, and a pointer to one is its position.
pub mod Attached
pub mod Spoken
pub mod Said
pub mod Answered
pub mod Owner
pub mod Owned
pub mod Reachable
use setinstone.Prelude.{
  ℕ, suc, [], ◌∷◌, ◌++◌, Option, none, some, List, Bytes, length, get_elem?, set, false,
}
use setinstone.Prelude.Action.{Action}
use setinstone.Prelude.Outcome.{Outcome, ok, err, panic}
use setinstone.Primitives.{Primitives}
use setinstone.Address.{Address}
use setinstone.Message.Json.{Json}
use setinstone.Event.Subscriptions.{Subscription, unsubscribe_from}
use setinstone.Event.Manager.{Event, Manager, ManagerFactory, PubSub}
use setinstone.Event.Manager
use setinstone.Event.Loop.{Round, event_loop}
use setinstone.Resolver.Backend.{Backend}
use setinstone.Resolver.Network.{Env, Events, IpfsResolver}
use setinstone.Resolver.Network.Answer.{handle_event}

-- The events of a node: its factory and managers, the network `N`, how many identifiers have been given out,
-- and the formatted time and the randomness that the next `Emit` reads. The one callback is `handle_event`.
pub record Bus (N : Type 0) : Type 0 where
  pub factory : ManagerFactory
  pub managers : List (Manager (Unit {0}))
  pub network : N
  pub issued : ℕ
  pub clock : Bytes
  pub entropy : ℕ

-- A pointer to a manager, with one of its subscriptions.
abbrev pub Handle : Type 0
Handle = ℕ × Subscription

-- What a callback reads: the time, the same formatted, and the randomness of a signature.
pub record Given : Type 0 where
  pub now : ℕ
  pub timestamp : Bytes
  pub seed : ℕ

-- `uuid` gives the identifiers in their order.
module _ {J N : Type 0} (p : Primitives) (j : Json J) (ps : PubSub N) (uuid : ℕ → Bytes) where
  built : Outcome (Manager (Unit {0})) × N → Bus N → Outcome ℕ × Bus N
  built (ok m, n) w =
      (ok (length w.managers), record w { managers = w.managers ++ m ∷ []; network = n })
  built (err c, n) w = (err c, record w { network = n })
  built (panic, n) w = (panic, record w { network = n })

  unfoldable pub build : Address → Address → Action (Bus N) ℕ
  unfolding built
  build signer_addr managed_addr w =
      built (Manager.build p j ps w.factory signer_addr managed_addr w.network) w

  -- No code has a position without a manager.
  on_manager : Option (Manager (Unit {0})) → ℕ → Bytes → Bus N → Handle × Bus N
  on_manager none h event_name w =
      ((h, record { id = []; event_name = event_name; parent = false }), w)
  on_manager (some m) h event_name w =
      let (sub, m') = Manager.on p j (uuid w.issued) event_name tt m in
      ((h, sub), record w { managers = set w.managers h m'; issued = suc w.issued })

  unfoldable pub on : ℕ → Bytes → Bus N → Handle × Bus N
  unfolding on_manager
  on h event_name w = on_manager (get_elem? w.managers h) h event_name w

  emit_by : Option (Manager (Unit {0})) → Bytes → Bytes → Action (Bus N) (Unit {0})
  emit_by none event_name body w = (panic, w)
  emit_by (some m) event_name body w =
      let (o, n) = Manager.emit p j ps w.entropy w.clock event_name body m w.network in
      (o, record w { network = n })

  unfoldable pub emit : ℕ → Bytes → Bytes → Action (Bus N) (Unit {0})
  unfolding emit_by
  emit h event_name body w = emit_by (get_elem? w.managers h) event_name body w

  unsubscribed : Option (Manager (Unit {0})) → Handle → Bus N → Bus N
  unsubscribed none (h, sub) w = w
  unsubscribed (some m) (h, sub) w =
      let m' = record m { subscriptions = unsubscribe_from sub m.subscriptions } in
      record w { managers = set w.managers h m' }

  unfoldable pub unsubscribe : Handle → Bus N → Bus N
  unfolding unsubscribed
  unsubscribe (h, sub) w = unsubscribed (get_elem? w.managers h) (h, sub) w

  unfoldable pub live_events : Events (Bus N) ℕ Handle
  live_events = record { build = build; on = on; emit = emit; unsubscribe = unsubscribe }

  module _ {B : Type 0} (store : Backend B) where
    unfoldable pub live_env : Env J (Bus N) ℕ Handle B
    live_env = record { primitives = p; json = j; manager = live_events; store = store }

    pointed : Option (Manager (Unit {0})) → Outcome (Manager (Unit {0}))
    pointed none = panic
    pointed (some m) = ok m

    unfoldable pub manager_at : ℕ → IpfsResolver (Bus N) ℕ Handle B → Outcome (Manager (Unit {0}))
    unfolding pointed
    manager_at h r = pointed (get_elem? r.events.managers h)

    -- `handle_event` as the callback of a subscription
    unfoldable pub callback :
        Given → Unit {0} → Event → Action (IpfsResolver (Bus N) ℕ Handle B) (Unit {0})
    callback given _ ev = handle_event live_env given.now given.timestamp given.seed ev.body

    -- The loop of the manager `h`, over what its topic brings.
    unfoldable pub listen :
        ℕ → List (Round Given) → Action (IpfsResolver (Bus N) ℕ Handle B) (Unit {0})
    listen h = event_loop p j (manager_at h) callback
