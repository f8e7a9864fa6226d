-- ===== src/Resolver/Network/Answer.antt =====
-- resolver/ipfs_resolver.go: what comes in as events, queries and resolutions.
use setinstone.Prelude.{
  ℕ, [], ◌∷◌, ◌++◌, Bool, true, false, Option, none, some, Bytes, bytes_eq, if◌then◌else◌,
}
use setinstone.Prelude.Assoc.{lookup}
use setinstone.Prelude.Action.{Action, reads, lift, ◌>>=◌, ◌>>◌}
use setinstone.Prelude.Outcome.{Outcome, ok, err, panic, unmanaged_address}
use setinstone.Address.{KeyPair, has_keys}
use setinstone.Address.Keys.{to_ecdsa_private_key}
use setinstone.Message.{
  Message, query, extract_query, get_id, older, sign_with_key, verify_signature, query_name_request,
  query_name_response,
}
use setinstone.Message.Json.{empty, from_json, to_json, query_type}
use setinstone.Cache
use setinstone.Resolver.Network.{
  Env, IpfsResolver, subscribe, put_in_cache, add_pending_query, remove_pending_query,
}

-- A method without results that stops at an error; the result is dropped.
unfoldable pub ended : {S A : Type 0} → Outcome A × S → Outcome (Unit {0}) × S
ended (err c, s) = (ok tt, s)
ended (ok _, s) = (ok tt, s)
ended (panic, s) = (panic, s)

module _ {J W H S B : Type 0} (e : Env J W H S B) where
  -- The goroutine starts.
  unfoldable pub send_resolution : Message → IpfsResolver W H S B → IpfsResolver W H S B
  send_resolution msg r = record r { sending = r.sending ++ msg ∷ [] }

  unfoldable pub can_send : Option Bool → Message → Action (IpfsResolver W H S B) Bool
  can_send none msg r = (ok false, r)
  can_send (some _) msg r = (ok true, remove_pending_query msg r)

  -- `canSendResolution` after its sleep
  unfoldable pub can_send_resolution : Message → Action (IpfsResolver W H S B) Bool
  unfolding can_send
  can_send_resolution msg r = can_send (lookup (extract_query msg).1 r.pending) msg r

  unfoldable pub sent : Message → Bytes → ℕ → Bool → Action (IpfsResolver W H S B) (Unit {0})
  sent msg js now false = lift (ok tt)
  sent msg js now true = do
    res ← subscribe e now msg.address
    λ r.
        let (o, w) = e.manager.emit res.evm query_name_response js r.events in
        (o, record r { events = w })

  -- The goroutine of `sendResolution`. What it reads before its sleep is the message alone.
  unfoldable pub woken :
      ℕ → Message → IpfsResolver W H S B → Outcome (Unit {0}) × IpfsResolver W H S B
  unfolding sent
  woken now msg r =
      ended
        ((do js ← lift (to_json e.json msg); can ← can_send_resolution msg; sent msg js now can) r)

  -- The answer to a query. `timestamp` is the formatted time.
  unfoldable pub resolution_of : Bytes → Message → Bytes → Message
  resolution_of timestamp msg resolution = record {
    timestamp = timestamp;
    address = msg.address;
    message_type = query_name_response;
    payload = query resolution (get_id e.primitives msg);
    public_key = [];
    signature = [];
  }

  -- a nil key pair panics
  unfoldable pub key_pair : Option KeyPair → Outcome KeyPair
  key_pair none = panic
  key_pair (some k) = ok k

  -- The rest of `handleQuery`, behind the pending query. `seed` is the randomness of ecdsa.Sign.
  unfoldable pub answer : ℕ → Bytes → ℕ → Message → Action (IpfsResolver W H S B) (Unit {0})
  unfolding key_pair
  answer now timestamp seed msg = do
    resolution ← reads (λ r. e.store.resolve now (extract_query msg).0 r.backend)
    resource ← subscribe e now msg.address
    lift (if has_keys resource.addr then ok tt else err unmanaged_address)
    k ← lift (key_pair resource.addr.keys)
    rec ← lift (
        sign_with_key e.primitives seed (to_ecdsa_private_key k)
          (resolution_of timestamp msg resolution))
    lift (verify_signature e.primitives rec)
    λ r. (ok tt, send_resolution rec r)

  unfoldable pub handle_query :
      ℕ → Bytes → ℕ → Message → IpfsResolver W H S B → Outcome (Unit {0}) × IpfsResolver W H S B
  handle_query now timestamp seed msg r =
      ended (answer now timestamp seed msg (add_pending_query e msg r))

  unfoldable pub replaces : Option Message → Message → Bool
  replaces none msg = true
  replaces (some cached) msg = older e.primitives cached msg

  unfoldable pub cached : ℕ → Message → IpfsResolver W H S B → IpfsResolver W H S B
  unfolding replaces
  cached now msg r =
      if replaces (Cache.get now (extract_query msg).1 r.resolution_cache) msg
      then put_in_cache now msg r
      else r

  unfoldable pub judged :
      ℕ → Message → Outcome (Unit {0}) → Action (IpfsResolver W H S B) (Unit {0})
  unfolding cached
  judged now msg (ok _) r = (ok tt, remove_pending_query msg (cached now msg r))
  judged now msg (err _) r = (ok tt, r)
  judged now msg panic r = (panic, r)

  unfoldable pub handle_resolution :
      ℕ → Message → IpfsResolver W H S B → Outcome (Unit {0}) × IpfsResolver W H S B
  unfolding judged
  handle_resolution now msg r = judged now msg (verify_signature e.primitives msg) r

  unfoldable pub dispatch :
      ℕ → Bytes → ℕ → Message → IpfsResolver W H S B → Outcome (Unit {0}) × IpfsResolver W H S B
  dispatch now timestamp seed rec r =
      if bytes_eq rec.message_type query_name_request
      then handle_query now timestamp seed rec r
      else if bytes_eq rec.message_type query_name_response
      then handle_resolution now rec r
      else (ok tt, r)

  unfoldable pub taken : ℕ → Bytes → ℕ → Outcome Message → Action (IpfsResolver W H S B) (Unit {0})
  taken now timestamp seed (ok rec) r = dispatch now timestamp seed rec r
  taken now timestamp seed (err _) r = (ok tt, r)
  taken now timestamp seed panic r = (panic, r)

  -- The callback on the data of an event.
  unfoldable pub handle_event :
      ℕ → Bytes → ℕ → Bytes → IpfsResolver W H S B → Outcome (Unit {0}) × IpfsResolver W H S B
  unfolding taken
  handle_event now timestamp seed body r =
      taken now timestamp seed (from_json e.json empty body (some query_type)) r
