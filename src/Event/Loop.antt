-- ===== src/Event/Loop.antt =====
-- event/manager.go: `startEventLoop`, with the callbacks that one round calls.
use setinstone.Prelude.{
  ◌≡◌, refl, ◌∙◌, Bool, false, if◌then◌else◌, [], ◌∷◌, ◌++◌, List, Bytes, bytes_eq, bytes_eq_refl,
  Bool-cases, inl, inr, All,
}
use setinstone.Prelude.Action.{Action, continue}
use setinstone.Prelude.Outcome.{Error, Outcome, ok, err, panic, ◌>>=◌}
use setinstone.Primitives.{Primitives}
use setinstone.Message.Json.{Json}
use setinstone.Event.Subscriptions.{get}
use setinstone.Event.Manager.{
  Event, Manager, loop_operation, new_event_from_pub_sub_message, dispatched,
}

-- A round: what `Next` of the subscription to the topic returns, what the callbacks read from outside the
-- program meanwhile, and whether the backoff library gives up if the round fails.
pub record Round (A : Type 0) : Type 0 where
  pub arrival : Outcome (Bytes × Bytes)
  pub given : A
  pub gives_up : Bool

-- The manager is found in the state of the program, `S`, and the callbacks change that state.
module _ {J C A S : Type 0} (p : Primitives) (j : Json J) (manager_of : S → Outcome (Manager C))
    (call : A → C → Event → Action S (Unit {0})) where
  unfoldable pub run_callbacks : A → List (C × Event) → Action S (Unit {0})
  run_callbacks given [] s = (ok tt, s)
  run_callbacks given ((c, ev) ∷ calls) s =
      let (o, s') = call given c ev s in continue o (λ _. run_callbacks given calls) s'

  unfoldable pub loop_round : Round A → Action S (Unit {0})
  loop_round r s =
      continue (manager_of s >>= loop_operation p j r.arrival) (run_callbacks r.given) s

  -- Retry tries a failed round again unless it gives up, and a round without an error ends Retry, which
  -- the loop then calls again.
  unfoldable pub retried :
      Bool → Outcome (Unit {0}) × S → Action S (Unit {0}) → Outcome (Unit {0}) × S
  retried gives_up (ok _, s) rest = rest s
  retried gives_up (err c, s) rest = if gives_up then (ok tt, s) else rest s
  retried gives_up (panic, s) rest = (panic, s)

  -- The state behind the rounds; the loop waits for another one, or has ended.
  unfoldable pub event_loop : List (Round A) → Action S (Unit {0})
  event_loop [] s = (ok tt, s)
  event_loop (r ∷ rounds) s = retried r.gives_up (loop_round r s) (event_loop rounds)

-- What a manager does nothing for: a failed wait that is tried again, its own message, what is no signed
-- event, and an event without callbacks.
pub data IsNoise {J C A : Type 0} (p : Primitives) (j : Json J) (m : Manager C) (r : Round A)
    : Type 0 where
  fails : (e : Error) → r.arrival ≡ err e → r.gives_up ≡ false → IsNoise p j m r
  own : (js : Bytes) → r.arrival ≡ ok (m.id, js) → IsNoise p j m r
  unsigned :
      (from js : Bytes) (e : Error)
      → r.arrival ≡ ok (from, js)
      → new_event_from_pub_sub_message p j js ≡ err e
      → IsNoise p j m r
  unheard :
      (from js : Bytes) (ev : Event)
      → r.arrival ≡ ok (from, js)
      → new_event_from_pub_sub_message p j js ≡ ok ev
      → get ev.name m.subscriptions ≡ []
      → IsNoise p j m r

module _ {J C A S : Type 0} (p : Primitives) (j : Json J) (manager_of : S → Outcome (Manager C))
    (call : A → C → Event → Action S (Unit {0})) where
  loop_operation-noise :
      (m : Manager C) (from js : Bytes)
      → dispatched p j m (new_event_from_pub_sub_message p j js) ≡ ok []
      → loop_operation p j (ok (from, js)) m ≡ ok []
  unfolding loop_operation
  loop_operation-noise m from js h = elim (Bool-cases (bytes_eq from m.id)) [
    | inl e ↦ rw e refl
    | inr e ↦ rw e h
  ]

  quiet :
      (m : Manager C) (r : Round A) (s : S) (rest : Action S (Unit {0}))
      → manager_of s ≡ ok m
      → loop_operation p j r.arrival m ≡ ok []
      → retried p j manager_of call r.gives_up (loop_round p j manager_of call r s) rest ≡ rest s
  unfolding loop_round retried run_callbacks
  quiet m r s rest found h = rw (found, h) refl

  round-noise :
      (m : Manager C) (r : Round A) (s : S) (rest : Action S (Unit {0}))
      → manager_of s ≡ ok m
      → IsNoise p j m r
      → retried p j manager_of call r.gives_up (loop_round p j manager_of call r s) rest ≡ rest s
  unfolding loop_round retried loop_operation dispatched
  round-noise m r s rest found (fails e a again) = rw (found, a, again) refl
  round-noise m r s rest found (own js a) = quiet m r s rest found (rw (a, bytes_eq_refl m.id) refl)
  round-noise m r s rest found (unsigned from js e a bad) =
      quiet m r s rest found (rw a (loop_operation-noise m from js (rw bad refl)))
  round-noise m r s rest found (unheard from js ev a good silent) =
      quiet m r s rest found (rw a (loop_operation-noise m from js (rw (good, silent) refl)))

  -- Noise is passed over.
  pub event_loop-noise :
      (m : Manager C) (noise rounds : List (Round A)) (s : S)
      → manager_of s ≡ ok m
      → All (IsNoise p j m) noise
      → event_loop p j manager_of call (noise ++ rounds) s ≡ event_loop p j manager_of call rounds s
  unfolding event_loop
  event_loop-noise m [] rounds s found h = refl
  event_loop-noise m (r ∷ noise) rounds s found h =
      round-noise m r s (event_loop p j manager_of call (noise ++ rounds)) found h.0
      ∙ event_loop-noise m noise rounds s found h.1

  -- A round that calls one callback.
  pub event_loop-one :
      (m : Manager C) (r : Round A) (c : C) (ev : Event) (rounds : List (Round A)) (s s' : S)
      → manager_of s ≡ ok m
      → loop_operation p j r.arrival m ≡ ok ((c, ev) ∷ [])
      → call r.given c ev s ≡ (ok tt, s')
      → event_loop p j manager_of call (r ∷ rounds) s ≡ event_loop p j manager_of call rounds s'
  unfolding event_loop loop_round retried run_callbacks
  event_loop-one m r c ev rounds s s' found heard called = rw (found, heard, called) refl
