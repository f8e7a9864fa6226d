-- ===== src/Tests/Live.antt =====
-- Two nodes with their event managers at concrete inputs.
use setinstone.Prelude.{
  ℕ, ◌≡◌, ◌≢◌, refl, true, false, none, List, [], ◌∷◌, ◌++◌, Bytes, codes, bytes_eq, bytes_eq_iff,
  All,
}
use setinstone.Prelude.Int.{pos}
use setinstone.Prelude.Assoc.{lookup, insert}
use setinstone.Prelude.Action.{◌>>=◌}
use setinstone.Prelude.Outcome.{Outcome, ok, err, other}
use setinstone.BigInt.{big_bytes}
use setinstone.Hex.{encode_to_string}
use setinstone.Crypto.{padded_pair, sign}
use setinstone.Address.{Address, has_keys}
use setinstone.Address.Keys.{of_ecdsa_key}
use setinstone.Message.{Message, get_id, sign_with_key, query_name_request, query_name_response}
use setinstone.Message.Json.{to_json}
use setinstone.Cache
use setinstone.Cache.{MemoryCache}
use setinstone.Event.Manager.{Manager, PubSub, get_topic_name, ManagerFactory}
use setinstone.Event.Manager
use setinstone.Event.Subscriptions
use setinstone.Event.Loop.{Round, IsNoise}
use setinstone.Resolver.Backend.{memory_backend}
use setinstone.Resolver.Network.{
  Env, IpfsResolver, Resource, subscribe, subscribe_address, remove_pending_query,
  add_pending_query,
}
use setinstone.Resolver.Network.Answer.{resolution_of, send_resolution, woken}
use setinstone.Resolver.Network.Query.{ask, resolve, published}
use setinstone.Resolver.Network.Live
use setinstone.Resolver.Network.Live.{Bus, Given, Handle, emit, listen, live_env, live_events}
use setinstone.Resolver.Network.Live.Attached.{IsStation, subscribe_address-IsStation}
use setinstone.Resolver.Network.Live.Answered.{IsSpeaker, foreign, owned, resolve-listen}
use setinstone.Tests.Events.{log, signer, of_outcome, text_of}
use setinstone.Tests.Json.{toy_json, toy_json-laws}
use setinstone.Tests.Samples.{toy, toy-laws, key}
use setinstone.Tests.Signatures.{key-IsKey}
use setinstone.Tests.Stores.{name, request, name-parsed}

abbrev pub Network : Type 0
Network = List (Bytes × Bytes)

abbrev pub uuid : ℕ → Bytes
uuid n = n ∷ []

abbrev pub env : Env Bytes (Bus Network) ℕ Handle (MemoryCache Bytes)
env = live_env toy toy_json log uuid memory_backend

abbrev pub Node : Type 0
Node = IpfsResolver (Bus Network) ℕ Handle (MemoryCache Bytes)

-- a node as it is made, by its peer identifier
abbrev pub fresh : Bytes → Node
fresh id = record {
  signer_addr = signer;
  resource_cache = record { entries = []; default_ttl = pos 0 };
  resolution_cache = record { entries = []; default_ttl = pos 10 };
  pending = [];
  backend = record { entries = []; default_ttl = pos 0 };
  events = record {
    factory = record { id = id; name_space = codes "n" };
    managers = [];
    network = [];
    issued = 0;
    clock = codes "2026";
    entropy = 0;
  };
  sending = [];
}

-- the first manager of a node with the subscriptions of a resource
abbrev resource : Address → Resource ℕ Handle
resource addr = record {
  addr = addr;
  evm = 0;
  sub_name_request_event =
      (0, record { id = uuid 1; event_name = query_name_request; parent = true });
  sub_name_response_event =
      (0, record { id = uuid 0; event_name = query_name_response; parent = true });
}

-- a node that has a value for the name
abbrev serving : Node
serving = record (fresh (codes "q")) {
  backend = record {
    entries = (name, record { value = codes "v"; expires_at = none }) ∷ [];
    default_ttl = pos 0;
  };
}

-- A node that follows the address with one manager.
abbrev following : Address → Node → Node
following addr r = record r {
  resource_cache = record {
    entries = (addr.address, record { value = resource addr; expires_at = none }) ∷ [];
    default_ttl = pos 0;
  };
  events = record (r.events) {
    managers =
        record {
          id = r.events.factory.id;
          name_space = codes "n";
          signer_addr = signer;
          managed_addr = addr;
          subscriptions =
              (query_name_response, (uuid 0, tt) ∷ [])
              ∷ (query_name_request, (uuid 1, tt) ∷ [])
              ∷ [];
        }
        ∷ [];
    issued = 2;
  };
}

abbrev asker : Node
asker = following (foreign request) (fresh (codes "p"))

abbrev owner : Node
owner = following (owned key request) serving

asker-subscribed :
    subscribe_address env 3 (foreign request) (fresh (codes "p"))
    ≡ (ok (resource (foreign request)), asker)
unfolding subscribe_address live_env live_events Live.build Live.on Cache.get Cache.live lookup
    Manager.build Manager.new_manager Manager.on Subscriptions.subscribe Cache.add insert
    Cache.add_with_ttl Subscriptions.get_or_create bytes_eq
asker-subscribed = refl

owner-subscribed :
    subscribe_address env 3 (owned key request) serving ≡ (ok (resource (owned key request)), owner)
unfolding subscribe_address live_env live_events Live.build Live.on Cache.get Cache.live lookup
    Manager.build Manager.new_manager Manager.on Subscriptions.subscribe Cache.add insert
    Cache.add_with_ttl Subscriptions.get_or_create bytes_eq
owner-subscribed = refl

unfollowed : Cache.get 3 request.address (fresh (codes "p")).resource_cache ≡ none
unfolding Cache.get Cache.live lookup
unfollowed = refl

subscribe_address-IsStation_example :
    (m : Manager (Unit {0})) × IsStation toy toy_json log uuid memory_backend
      (foreign request)
      asker
      (resource (foreign request))
      m
    × (asker.events.managers ≡ [] ++ m ∷ [])
subscribe_address-IsStation_example =
    subscribe_address-IsStation toy toy_json log uuid memory_backend 3 (foreign request)
      (fresh (codes "p")) asker (resource (foreign request)) refl unfollowed asker-subscribed

-- what subscribe_address-IsStation says of the two nodes
asker_station :
    (m : Manager (Unit {0})) × IsStation toy toy_json log uuid memory_backend
      (foreign request)
      asker
      (resource (foreign request))
      m
asker_station =
    let (m, station, _) =
      subscribe_address-IsStation toy toy_json log uuid memory_backend 3 (foreign request)
        (fresh (codes "p")) asker (resource (foreign request)) refl unfollowed asker-subscribed in
    (m, station)

owner_station :
    (m : Manager (Unit {0})) × IsStation toy toy_json log uuid memory_backend
      (owned key request)
      owner
      (resource (owned key request))
      m
owner_station =
    let (m, station, _) =
      subscribe_address-IsStation toy toy_json log uuid memory_backend 3 (owned key request) serving
        owner (resource (owned key request)) refl unfollowed owner-subscribed in
    (m, station)

asker-IsSpeaker :
    IsSpeaker toy toy_json log uuid memory_backend
      (foreign request)
      asker
      key
      (resource (foreign request))
      asker_station.0
asker-IsSpeaker = record { station = asker_station.1; is_key = key-IsKey; signs = refl }

owner-IsSpeaker :
    IsSpeaker toy toy_json log uuid memory_backend
      (owned key request)
      owner
      key
      (resource (owned key request))
      owner_station.0
owner-IsSpeaker = record { station = owner_station.1; is_key = key-IsKey; signs = refl }

abbrev hearing : Given
hearing = record { now = 5; timestamp = codes "2026"; seed = 0 }

abbrev answer : Message
answer = of_outcome (sign_with_key toy 0 key (resolution_of env (codes "2026") request (codes "v")))

answer-made :
    sign_with_key toy 0 key (resolution_of env (codes "2026") request (codes "v")) ≡ ok answer
unfolding sign_with_key sign toy live_env
answer-made = refl

other_peer : asker.events.factory.id ≢ owner.events.factory.id
unfolding bytes_eq
other_peer h =
    let same : bytes_eq (codes "p") (codes "q") ≡ true =
      (bytes_eq_iff (codes "p") (codes "q")).1 h in
    cc

request-written : to_json toy_json request ≡ ok (text_of request)
unfolding to_json toy_json
request-written = refl

answer-written : to_json toy_json answer ≡ ok (text_of answer)
unfolding to_json toy_json
answer-written = refl

abbrev asking : Node
asking = (ask env 3 request asker).1

asked : ask env 3 request asker ≡ (ok true, asking)
unfolding ask ◌>>=◌ to_json live_env toy_json subscribe subscribe_address Cache.get Cache.live
    lookup bytes_eq Cache.is_expired live_events emit Manager.emit has_keys of_ecdsa_key
    encode_to_string padded_pair big_bytes key Manager.signed_event sign_with_key sign toy published
asked = refl

abbrev emitted : Outcome (Unit {0}) × Bus Network
emitted = emit toy toy_json log uuid 0 query_name_response (text_of answer) owner.events

answer-emitted :
    emit toy toy_json log uuid 0 query_name_response (text_of answer) owner.events
    ≡ (ok tt, emitted.1)
unfolding emit Manager.emit has_keys bytes_eq of_ecdsa_key encode_to_string padded_pair big_bytes
    key Manager.signed_event sign_with_key sign toy to_json toy_json
answer-emitted = refl

value-stored : memory_backend.resolve 5 name owner.backend ≡ ok (codes "v")
unfolding memory_backend Cache.get Cache.live lookup bytes_eq Cache.is_expired
value-stored = refl

nothing : Cache.get 5 (get_id toy request) asker.resolution_cache ≡ none
unfolding Cache.get Cache.live lookup
nothing = refl

owner-keys : has_keys (owned key request) ≡ true
unfolding has_keys bytes_eq of_ecdsa_key encode_to_string padded_pair big_bytes key
owner-keys = refl

-- The wait that failed before the request came, and was tried again.
abbrev failure : Round Given
failure = record { arrival = err (other 4); given = hearing; gives_up = false }

failure-IsNoise : (m : Manager (Unit {0})) → All (IsNoise toy toy_json m) (failure ∷ [])
failure-IsNoise m = (IsNoise.fails (other 4) refl refl, tt)

-- The state of the owner behind the request.
abbrev answering : Node
answering = send_resolution env answer (add_pending_query env request owner)

resolve-listen_example :
    (request_text answer_text : Bytes) × (log.publish
        (get_topic_name toy toy_json owner_station.0)
        request_text
        []
      ≡ (ok tt, asking.events.network))
    × (listen toy toy_json log uuid memory_backend 0
          (failure
            ∷ record {
              arrival = ok (asker_station.0.id, request_text);
              given = hearing;
              gives_up = true;
            }
            ∷ [])
          owner
        ≡ (ok tt, answering))
    × (woken env 6 answer answering
        ≡ (ok tt, record (remove_pending_query answer answering) { events = emitted.1 }))
    × (log.publish (get_topic_name toy toy_json asker_station.0) answer_text []
        ≡ (ok tt, emitted.1.network))
    × (a2 : Node) × (listen toy toy_json log uuid memory_backend 0
          (record {
            arrival = ok (owner_station.0.id, answer_text);
            given = hearing;
            gives_up = true;
          }
            ∷ [])
          asking
        ≡ (ok tt, a2))
    × (resolve env 15 name [] a2 ≡ (ok (codes "v"), a2))
unfolding Cache.is_past Cache.expiry
resolve-listen_example =
    resolve-listen toy toy_json log uuid memory_backend toy-laws toy_json-laws key key key request
      answer name (codes "v") (resource (foreign request)) (resource (owned key request))
      asker_station.0 owner_station.0 asker owner hearing hearing true key-IsKey asker-IsSpeaker
      owner-IsSpeaker refl other_peer name-parsed answer-made 3 6 15 (text_of request)
      (text_of answer) asking emitted.1 [] (failure ∷ []) [] request-written answer-written refl
      refl refl refl owner-keys value-stored nothing refl asked answer-emitted tt
      (failure-IsNoise owner_station.0)
