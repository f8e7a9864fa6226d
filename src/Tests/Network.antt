-- ===== src/Tests/Network.antt =====
-- The resolver over the network at concrete inputs.
use setinstone.Prelude.{◌≡◌, refl, true, false, none, List, [], ◌∷◌, ◌⊎◌, Bytes, codes, bytes_eq}
use setinstone.Prelude.Int.{pos}
use setinstone.Prelude.Assoc.{lookup, insert}
use setinstone.Prelude.Action.{◌>>=◌}
use setinstone.Prelude.Outcome.{Outcome, ok, err, unmanaged_address}
use setinstone.BigInt.{big_bytes}
use setinstone.Hex.{encode_to_string}
use setinstone.Crypto.{padded_pair, left_pad_bytes, sign}
use setinstone.Address.{KeyPair, has_keys, is_valid, checksum}
use setinstone.Address.Base58.{base58_decode}
use setinstone.Address.Keys.{of_ecdsa_key}
use setinstone.Message.{
  Message, query, extract_query, get_id, sign_with_key, verify_signature, query_name_request,
  query_name_response,
}
use setinstone.Message.Signature.{verify_signature-sign_with_key}
use setinstone.Message.Json.{to_json}
use setinstone.Cache
use setinstone.Cache.{MemoryCache, CacheRecord, new_memory_cache}
use setinstone.Resolver.{get_query_name_request_from_name, split}
use setinstone.Resolver.Backend.{memory_backend, memory_backend-BackendLaws}
use setinstone.Resolver.Network.{
  Env, Events, IpfsResolver, Resource, is_managed, keys_of_found, subscribe_address, subscribe,
  manage, add,
}
use setinstone.Resolver.Network.Answer.{handle_resolution, resolution_of, woken}
use setinstone.Resolver.Network.Query.{
  Round, ask, cached_or_queried, look, poll, poll_asked, published, received, resolve, resolved,
  run, step,
}
use setinstone.Resolver.Network.Query
use setinstone.Resolver.Network.Verified.{AllVerified, step-AllVerified}
use setinstone.Resolver.Network.Resolved.{Answers, resolve-Answers}
use setinstone.Resolver.Network.Newest.{woken-handle_resolution}
use setinstone.Resolver.Network.Managed.{manage-subscribe, resolve-add-manage}
use setinstone.Resolver.Network.Forged.{resolve-forged}
use setinstone.Resolver.Network
use setinstone.Resolver.Network.Answer
use setinstone.Message
use setinstone.BigInt
use setinstone.Crypto
use setinstone.Message.Json.{from_json}
use setinstone.Prelude.Assoc.{erase}
use setinstone.Hex.{decode_string}
use setinstone.Tests.Events.{signer, of_outcome, text_of}
use setinstone.Tests.Json.{toy_json}
use setinstone.Tests.Samples.{toy, toy-laws, key}
use setinstone.Tests.Signatures.{key-IsKey}
use setinstone.Tests.Stores.{name, request, name-parsed}
use setinstone.Tests.World.{owner}

-- The emitted events, the newest first. A manager is its address, and a subscription the name of its event.
abbrev Log : Type 0
Log = List (Bytes × Bytes)

abbrev logging : Events Log Bytes Bytes
logging = record {
  build = λ signer managed w. (ok managed.address, w);
  on = λ h n w. (n, w);
  emit = λ h n js w. (ok tt, (n, js) ∷ w);
  unsubscribe = λ s w. w;
}

abbrev pub env : Env Bytes Log Bytes Bytes (MemoryCache Bytes)
env = record { primitives = toy; json = toy_json; manager = logging; store = memory_backend }

abbrev Node : Type 0
Node = IpfsResolver Log Bytes Bytes (MemoryCache Bytes)

-- a resolver as it is made
abbrev pub fresh : Node
fresh = record {
  signer_addr = signer;
  resource_cache = record { entries = []; default_ttl = pos 0 };
  resolution_cache = record { entries = []; default_ttl = pos 10 };
  pending = [];
  backend = record { entries = []; default_ttl = pos 0 };
  events = [];
  sending = [];
}

abbrev state : {A : Type 0} → Outcome A × Node → Node
state x = x.1

fresh-AllVerified : AllVerified env fresh
unfolding lookup
fresh-AllVerified k m h = cc

abbrev pub answer : Message
answer = of_outcome (sign_with_key toy 0 key (resolution_of env (codes "2026") request (codes "v")))

answer-made :
    sign_with_key toy 0 key (resolution_of env (codes "2026") request (codes "v")) ≡ ok answer
unfolding sign_with_key sign toy
answer-made = refl

step-AllVerified_example :
    AllVerified env (step env (received 3 (codes "2026") 0 (text_of answer)) fresh).1
step-AllVerified_example =
    step-AllVerified env (received 3 (codes "2026") 0 (text_of answer)) fresh fresh-AllVerified

-- a resolver that took the answer
abbrev informed : Node
informed = (handle_resolution env 3 answer fresh).1

answer-verified : verify_signature toy answer ≡ ok tt
answer-verified =
    (verify_signature-sign_with_key toy toy-laws 0 key
      (resolution_of env (codes "2026") request (codes "v")) answer key-IsKey answer-made).0

abbrev request_id : Bytes
request_id = get_id toy request

refers : (extract_query answer).1 ≡ request_id
unfolding sign_with_key extract_query get_id sign encode_to_string toy resolution_of
refers = refl

answer-written : to_json toy_json answer ≡ ok (text_of answer)
unfolding to_json toy_json
answer-written = refl

woken-handle_resolution_example : woken env 5 answer informed ≡ (ok tt, informed)
woken-handle_resolution_example =
    woken-handle_resolution env 3 5 answer answer (text_of answer) fresh answer-verified refl
      answer-written

nobody : is_managed 3 request fresh ≡ false
unfolding is_managed Cache.get Cache.live lookup
nobody = refl

nothing : Cache.get 3 request_id fresh.resolution_cache ≡ none
unfolding Cache.get lookup Cache.live
nothing = refl

resolve-forged_example :
    resolve env 3 name [] (handle_resolution env 3 answer fresh).1
    ≡ (ok (codes "v"), (handle_resolution env 3 answer fresh).1)
unfolding resolution_of
resolve-forged_example =
    resolve-forged env toy-laws 0 key 3 name (codes "v") request
      (resolution_of env (codes "2026") request (codes "v")) answer [] fresh key-IsKey name-parsed
      nobody nothing refl answer-made

-- The answer comes in while the query waits.
abbrev waiting : List (Round Log)
waiting = record { inputs = received 4 (codes "2026") 0 (text_of answer) ∷ []; later = 5 } ∷ []

abbrev answered : Node
answered = (resolve env 3 name waiting fresh).1

fresh-answered : resolve env 3 name waiting fresh ≡ (ok (codes "v"), answered)
unfolding resolve resolved get_query_name_request_from_name split is_valid base58_decode checksum
    toy bytes_eq is_managed keys_of_found Cache.get Cache.live lookup ◌>>=◌ cached_or_queried
    Query.query ask poll_asked poll look published run step subscribe to_json toy_json insert
    Network.get_from_cache subscribe_address Answer.handle_event from_json Answer.dispatch erase
    sign_with_key sign resolution_of handle_resolution verify_signature decode_string
    encode_to_string key Message.bytes get_id Crypto.halves big_bytes Cache.add Cache.add_with_ttl
    Cache.expiry Cache.is_expired Cache.is_past left_pad_bytes padded_pair extract_query
    Message.older Message.payload_bytes Answer.cached Answer.judged Answer.replaces Answer.taken
    Network.put_in_cache Network.remove_pending_query BigInt.set_bytes
fresh-answered = refl

resolve-Answers_example :
    ((codes "v" ≡ []) × (ask env 3 request fresh ≡ (ok false, answered)))
    ⊎ (m : Message) × Answers env (get_id toy request) fresh waiting m
      × ((extract_query m).0 ≡ codes "v")
resolve-Answers_example =
    resolve-Answers env 3 name (codes "v") request waiting fresh answered fresh-AllVerified
      name-parsed nobody fresh-answered

abbrev owner_pair : KeyPair
owner_pair = of_ecdsa_key key

has_secret : bytes_eq owner_pair.private_key [] ≡ false
unfolding bytes_eq of_ecdsa_key encode_to_string big_bytes key
has_secret = refl

unfollowed : Cache.get 3 owner fresh.resource_cache ≡ none
unfolding Cache.get Cache.live lookup
unfollowed = refl

-- the resource of a bare subscription
abbrev bare : Resource Bytes Bytes
bare = record {
  addr = record { keys = none; address = owner };
  evm = owner;
  sub_name_request_event = query_name_request;
  sub_name_response_event = query_name_response;
}

abbrev following : Node
following = (subscribe env 3 owner fresh).1

owner-subscribed : subscribe env 3 owner fresh ≡ (ok bare, following)
unfolding subscribe subscribe_address Cache.get Cache.live lookup
owner-subscribed = refl

manage-subscribe_example :
    (manage env 4 signer following ≡ (ok tt, following))
    × (add env 4 name (codes "v") following ≡ (err unmanaged_address, following))
manage-subscribe_example =
    manage-subscribe env 3 4 signer owner_pair name (codes "v") request bare fresh following refl
      unfollowed refl has_secret name-parsed refl owner-subscribed

abbrev managing : Node
managing = (manage env 3 signer fresh).1

owner-managed : manage env 3 signer fresh ≡ (ok tt, managing)
unfolding manage bytes_eq of_ecdsa_key encode_to_string big_bytes key ◌>>=◌ subscribe_address
    Cache.get Cache.live lookup
owner-managed = refl

abbrev serving : Node
serving = (add env 4 name (codes "v") managing).1

name-served : add env 4 name (codes "v") managing ≡ (ok tt, serving)
unfolding add ◌>>=◌ get_query_name_request_from_name split is_valid base58_decode bytes_eq checksum
    toy is_managed Cache.get Cache.live lookup manage of_ecdsa_key encode_to_string key
    subscribe_address has_keys big_bytes Cache.add Cache.add_with_ttl Cache.expiry Cache.is_expired
    Cache.is_past left_pad_bytes padded_pair insert memory_backend
name-served = refl

signer-keys : has_keys signer ≡ true
unfolding has_keys bytes_eq of_ecdsa_key encode_to_string padded_pair big_bytes key
signer-keys = refl

resolve-add-manage_example : resolve env 9 name [] serving ≡ (ok (codes "v"), serving)
resolve-add-manage_example =
    resolve-add-manage env (memory_backend-BackendLaws toy) 3 4 9 signer name (codes "v") request []
      fresh managing serving refl refl unfollowed signer-keys name-parsed refl owner-managed
      name-served

request-written : to_json toy_json request ≡ ok (text_of request)
unfolding to_json toy_json
request-written = refl
