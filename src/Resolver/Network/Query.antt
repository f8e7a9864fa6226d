-- ===== src/Resolver/Network/Query.antt =====
-- resolver/ipfs_resolver.go: a name is resolved, and the network is queried for it. While a query polls
-- its cache, the other goroutines of the program step; a schedule tells which.
use setinstone.Prelude.{
  ℕ, zero, suc, [], ◌∷◌, Bool, true, false, Option, none, some, List, Bytes, get_elem?,
}
use setinstone.Prelude.Action.{Action, reads, lift, continue, ◌>>=◌}
use setinstone.Prelude.Outcome.{Outcome, ok, err, panic, name_not_found, other}
use setinstone.Address.{Address}
use setinstone.Message.{Message, extract_query, get_id, query_name_request}
use setinstone.Message.Json.{empty, to_json}
use setinstone.Resolver.{get_query_name_request_from_name}
use setinstone.Resolver.Network.{
  Env, IpfsResolver, is_managed, get_from_cache, subscribe, manage, remove, add,
}
use setinstone.Resolver.Network.Answer.{ended, handle_event, woken}

-- A step of another goroutine, with the time at which it is taken.
pub data Input (W : Type 0) : Type 0 where
  -- an event for the callback, with the formatted time and the randomness of an answer
  received : ℕ → Bytes → ℕ → Bytes → Input W
  -- the end of the sleep of a goroutine of `send_resolution`, by its position
  wakes : ℕ → ℕ → Input W
  -- the calls of the methods
  adds : ℕ → Bytes → Bytes → Input W
  manages : ℕ → Address → Input W
  subscribes : ℕ → Bytes → Input W
  removes : ℕ → Bytes → Input W
  -- the first part of a query
  asks : ℕ → Message → Input W
  -- the network: a new state of the events
  turns : W → Input W

-- What happens during one pause of the loop, and the time after it.
pub record Round (W : Type 0) : Type 0 where
  pub inputs : List (Input W)
  pub later : ℕ

-- context.DeadlineExceeded
abbrev pub deadline_exceeded : Outcome Message
deadline_exceeded = err (other 1)

unfoldable pub without_position : ℕ → List Message → List Message
without_position n [] = []
without_position zero (m ∷ l) = l
without_position (suc n) (m ∷ l) = m ∷ without_position n l

module _ {J W H S B : Type 0} (e : Env J W H S B) where
  unfoldable pub published : Outcome (Unit {0}) → Action (IpfsResolver W H S B) Bool
  published (ok _) r = (ok true, r)
  published (err c) r = (ok false, r)
  published panic r = (panic, r)

  -- The part of `query` before its loop: whether the request was published.
  unfoldable pub ask : ℕ → Message → Action (IpfsResolver W H S B) Bool
  unfolding published
  ask now rec = do
    js ← lift (to_json e.json rec)
    res ← subscribe e now rec.address
    λ r.
        let (o, w) = e.manager.emit res.evm query_name_request js r.events in
        published o (record r { events = w })

  unfoldable pub woken_at : ℕ → ℕ → Option Message → Action (IpfsResolver W H S B) (Unit {0})
  woken_at now n none r = (ok tt, r)
  woken_at now n (some msg) r =
      woken e now msg (record r { sending = without_position n r.sending })

  -- An error is the caller's, and the program goes on.
  unfoldable pub step : Input W → IpfsResolver W H S B → Outcome (Unit {0}) × IpfsResolver W H S B
  unfolding woken_at
  step (received now timestamp seed body) r = handle_event e now timestamp seed body r
  step (wakes now n) r = woken_at now n (get_elem? r.sending n) r
  step (adds now name value) r = ended (add e now name value r)
  step (manages now addr) r = ended (manage e now addr r)
  step (subscribes now addr) r = ended (subscribe e now addr r)
  step (removes now addr) r = (ok tt, remove e now addr r)
  step (asks now rec) r = ended (ask now rec r)
  step (turns w) r = (ok tt, record r { events = w })

  -- A panic ends the program.
  unfoldable pub run : List (Input W) → Action (IpfsResolver W H S B) (Unit {0})
  run [] r = (ok tt, r)
  run (i ∷ inputs) r = let (o, r') = step i r in continue o (λ _. run inputs) r'

  -- One look into the cache, and what to do where nothing is found.
  unfoldable pub look :
      Outcome Message
      → Action (IpfsResolver W H S B) Message
      → Action (IpfsResolver W H S B) Message
  look (ok found) rest r = (ok found, r)
  look (err c) rest r = rest r
  look panic rest r = (panic, r)

  -- The loop of `query`. The context is done in the pause after the last round.
  unfoldable pub poll : ℕ → Bytes → List (Round W) → Action (IpfsResolver W H S B) Message
  unfolding look
  poll now key [] r = look (get_from_cache now key r) (lift deadline_exceeded) r
  poll now key (round ∷ rounds) r =
      look (get_from_cache now key r)
        (λ r. let (o, r') = run round.inputs r in continue o (λ _. poll round.later key rounds) r')
        r

  -- Where the request is not published, an empty message is returned without an error.
  unfoldable pub poll_asked :
      ℕ → Message → List (Round W) → Bool → Action (IpfsResolver W H S B) Message
  poll_asked now rec rounds true = poll now (get_id e.primitives rec) rounds
  poll_asked now rec rounds false = lift (ok empty)

  unfoldable pub query : ℕ → Message → List (Round W) → Action (IpfsResolver W H S B) Message
  unfolding poll_asked
  query now rec rounds = do asked ← ask now rec; poll_asked now rec rounds asked

  unfoldable pub cached_or_queried :
      ℕ → Message → List (Round W) → Outcome Message → Action (IpfsResolver W H S B) Message
  cached_or_queried now rec rounds (ok rc) = lift (ok rc)
  cached_or_queried now rec rounds (err name_not_found) = query now rec rounds
  cached_or_queried now rec rounds (err c) = lift (err c)
  cached_or_queried now rec rounds panic = lift panic

  unfoldable pub resolved :
      ℕ → Bytes → Message → List (Round W) → Bool → Action (IpfsResolver W H S B) Bytes
  unfolding cached_or_queried
  resolved now name rec rounds true = reads (λ r. e.store.resolve now name r.backend)
  resolved now name rec rounds false = do
    cached ← reads (λ r. ok (get_from_cache now (get_id e.primitives rec) r))
    rc ← cached_or_queried now rec rounds cached
    lift (ok (extract_query rc).0)

  unfoldable pub resolve : ℕ → Bytes → List (Round W) → Action (IpfsResolver W H S B) Bytes
  unfolding resolved
  resolve now name rounds = do
    rec ← lift (get_query_name_request_from_name e.primitives name)
    managed ← reads (λ r. ok (is_managed now rec r))
    resolved now name rec rounds managed
