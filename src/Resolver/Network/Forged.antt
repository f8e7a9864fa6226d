-- ===== src/Resolver/Network/Forged.antt =====
-- resolver/ipfs_resolver.go: `handleResolution` and `Resolve`, for an answer that any key has signed.
use setinstone.Prelude.{ℕ, ◌≡◌, refl, sym, ap, ◌∙◌, false, none, some, List, Bytes}
use setinstone.Prelude.Action.{◌>>=◌}
use setinstone.Prelude.Outcome.{ok}
use setinstone.Primitives.{PrimitivesLaws, EcdsaKey}
use setinstone.Crypto.RoundTrip.{IsKey}
use setinstone.Message.{Message, query, extract_query, get_id, sign_with_key, verify_signature}
use setinstone.Message.Signature.{verify_signature-sign_with_key, sign_with_key-eq-ok}
use setinstone.Cache
use setinstone.Cache.{expiry, is_past}
use setinstone.Resolver.{get_query_name_request_from_name}
use setinstone.Resolver.Network.{
  Env, IpfsResolver, is_managed, get_from_cache, found_message, keys_of_found,
}
use setinstone.Resolver.Network.Answer.{handle_resolution}
use setinstone.Resolver.Network.Query.{Round, resolve, cached_or_queried}
use setinstone.Resolver.Network.Newest.{handled-later, is_past-expiry, resources-handled}
use setinstone.Resolver.Network.Resolved.{resolve-unmanaged}

module _ {J W H S B : Type 0} (e : Env J W H S B) where
  resolve-cached :
      (now : ℕ) (name : Bytes) (rec found : Message) (rounds : List (Round W))
      (r : IpfsResolver W H S B)
      → get_query_name_request_from_name e.primitives name ≡ ok rec
      → is_managed now rec r ≡ false
      → Cache.get now (get_id e.primitives rec) r.resolution_cache ≡ some found
      → resolve e now name rounds r ≡ (ok (extract_query found).0, r)
  unfolding get_from_cache found_message cached_or_queried ◌>>=◌
  resolve-cached now name rec found rounds r parsed other hit =
      resolve-unmanaged e now name rec rounds r parsed other ∙ rw hit refl

  -- An answer that verifies is what the name resolves to until it expires, where no answer is cached.
  pub resolve-handled :
      (now later : ℕ) (name value : Bytes) (rec msg : Message) (rounds : List (Round W))
      (r : IpfsResolver W H S B)
      → get_query_name_request_from_name e.primitives name ≡ ok rec
      → is_managed later rec r ≡ false
      → Cache.get now (get_id e.primitives rec) r.resolution_cache ≡ none
      → is_past (expiry now r.resolution_cache.default_ttl) later ≡ false
      → msg.payload ≡ query value (get_id e.primitives rec)
      → verify_signature e.primitives msg ≡ ok tt
      → resolve e later name rounds (handle_resolution e now msg r).1
        ≡ (ok value, (handle_resolution e now msg r).1)
  unfolding extract_query is_managed keys_of_found
  resolve-handled now later name value rec msg rounds r parsed other miss live pay good =
      let after : IpfsResolver W H S B = (handle_resolution e now msg r).1 in
      let id : Bytes = get_id e.primitives rec in
      let refers : extract_query msg ≡ (value, id) = rw pay refl in
      let same : (extract_query msg).1 ≡ id = λ i. (refers i).1 in
      let hit : Cache.get later id after.resolution_cache ≡ some msg =
        ap (λ k. Cache.get later k after.resolution_cache) (sym same)
        ∙ handled-later e now later msg r good
            (ap (λ k. Cache.get now k r.resolution_cache) same ∙ miss) live in
      resolve-cached later name rec msg rounds after parsed
        (ap (λ c. keys_of_found (Cache.get later rec.address c))
            (resources-handled e now msg r good)
          ∙ other)
        hit
      ∙ λ i. ((ok (refers i).0), after)

  -- A response that any key has signed is taken: when a name is not managed and nothing is cached
  -- for it, a message that refers to its request, signed by a key without any relation to the
  -- address, makes the name resolve to the value in that message.
  pub resolve-forged :
      (laws : PrimitivesLaws e.primitives) (seed : ℕ) (key : EcdsaKey) (now : ℕ)
      (name value : Bytes) (rec forged signed : Message) (rounds : List (Round W))
      (r : IpfsResolver W H S B)
      → IsKey e.primitives key
      → get_query_name_request_from_name e.primitives name ≡ ok rec
      → is_managed now rec r ≡ false
      → Cache.get now (get_id e.primitives rec) r.resolution_cache ≡ none
      → forged.payload ≡ query value (get_id e.primitives rec)
      → sign_with_key e.primitives seed key forged ≡ ok signed
      → resolve e now name rounds (handle_resolution e now signed r).1
        ≡ (ok value, (handle_resolution e now signed r).1)
  resolve-forged laws seed key now name value rec forged signed rounds r is_key parsed other miss
        pay h =
      let (s, same) = sign_with_key-eq-ok e.primitives seed key forged signed h in
      resolve-handled now now name value rec signed rounds r parsed other miss
        (is_past-expiry now r.resolution_cache.default_ttl) (ap (λ m. m.payload) same ∙ pay)
        (verify_signature-sign_with_key e.primitives laws seed key forged signed is_key h).0
