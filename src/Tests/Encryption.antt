-- ===== src/Tests/Encryption.antt =====
-- Encryption, key pairs in files and new addresses at concrete inputs.
use setinstone.Prelude.{
  ℕ, ◌≡◌, ◌≢◌, refl, sym, ap, ◌∙◌, subst, [], ◌∷◌, true, Option, none, some, arith, Bytes, codes,
  length, take, replicate, length-replicate,
}
use setinstone.Prelude.Outcome.{Outcome, ok, err, panic, other}
use setinstone.Crypto.RoundTrip.{IsKey}
use setinstone.Crypto.Encryption.{Aes, AesLaws, encrypt, decrypt, decrypt-encrypt}
use setinstone.Primitives.{EcdsaKey}
use setinstone.BigInt.{big_bytes, set_bytes}
use setinstone.Hex.{encode_to_string, decode_string}
use setinstone.Crypto.{padded_pair, halves, left_pad_bytes}
use setinstone.Address.{
  KeyPair, has_keys, matches_pub_key, new_address_for_keys, hash_pub_key, checksum,
}
use setinstone.Address.Base58.{base58_encode}
use setinstone.Address.Keys.{of_ecdsa_key, to_ecdsa_private_key}
use setinstone.Address.Pem.{Pem, PemLaws, new_key_pair, to_pem, new_from_pem, new_from_pem-to_pem}
use setinstone.Address.Generated.{
  is_valid_address, new_address_with_keys, new_address_with_keys-IsValid,
}
use setinstone.Tests.Samples.{toy, toy-laws, key}
use setinstone.Tests.Events.{signer}
use setinstone.Tests.Signatures.{key-IsKey}

-- A cipher that puts a tag in front, whose key does not matter.
abbrev toy_open : Bytes → Outcome Bytes
toy_open [] = err (other 1)
toy_open (c ∷ s) = ok s

abbrev toy_aes : Aes (Unit {0}) (Unit {0})
toy_aes = record {
  md5 = λ s. replicate 16 7;
  new_cipher = λ k. ok tt;
  new_gcm = λ b. ok tt;
  nonce_size = λ g. 12;
  seal = λ g n s. 9 ∷ s;
  open_sealed = λ g n s. toy_open s;
  read_full = λ seed n. ok (replicate n seed);
}

toy_open-≢ : (s : Bytes) → toy_open s ≢ panic
toy_open-≢ [] e = cc e
toy_open-≢ (c ∷ s) e = cc e

toy_aes-laws : AesLaws toy_aes
toy_aes-laws = record {
  md5_length = λ s. length-replicate {A = ℕ} 16 7;
  new_cipher_ok = λ k h. (tt, refl);
  new_gcm_ok = λ b. (tt, refl);
  nonce_size_standard = λ b g h. refl;
  read_full_length = λ seed n s e.
      let same : replicate n seed ≡ s = cc e in
      sym (ap length same) ∙ length-replicate {A = ℕ} n seed;
  open_seal = λ g n s h. refl;
  open_total = λ g n s h. toy_open-≢ s;
}

decrypt-encrypt_example :
    (sealed : Bytes) × (encrypt toy_aes 3 (1 ∷ 2 ∷ []) (codes "pass") ≡ ok sealed)
    × (take 12 sealed ≡ replicate 12 3)
    × (decrypt toy_aes sealed (codes "pass") ≡ ok (1 ∷ 2 ∷ []))
decrypt-encrypt_example =
    decrypt-encrypt toy_aes toy_aes-laws 3 (replicate 12 3) (1 ∷ 2 ∷ []) (codes "pass") refl

-- One key is generated. A block is its bytes, the password before them, and keys are three numbers.
abbrev parsed : Bytes → Outcome EcdsaKey
parsed (s ∷ x ∷ y ∷ []) = ok (record { secret = s; x = x; y = y })
parsed _ = err (other 1)

abbrev opened : Option Bytes → Bytes → Outcome Bytes
opened none password = panic
opened (some b) password = ok b

abbrev toy_pem : Pem Bytes
toy_pem = record {
  generate_key = λ seed. ok key;
  marshal_private_key = λ k. ok (k.secret ∷ k.x ∷ k.y ∷ []);
  parse_private_key = parsed;
  encrypt_block = λ seed kind s password. ok s;
  decrypt_block = opened;
  encode_to_memory = λ b. b;
  decode = λ s. (some s, []);
}

toy_pem-laws : PemLaws toy toy_pem
unfolding key
toy_pem-laws = record {
  generated = λ seed k e.
      let same : key ≡ k = cc e in
      subst (λ x. IsKey toy x × (x.secret ≢ 0)) same (key-IsKey, λ q. absurd (omega (arith, q)));
  parse_marshal =
      λ k s pair e. let same : (k.secret ∷ k.x ∷ k.y ∷ []) ≡ s = cc e in ap parsed (sym same);
  decrypt_encrypt = λ seed kind s password b e. sym e;
  decode_encode = λ seed kind s password b e. refl;
}

generated : new_key_pair toy_pem 0 ≡ ok (of_ecdsa_key key)
unfolding new_key_pair
generated = refl

written : to_pem toy_pem 0 (codes "pass") (of_ecdsa_key key) ≡ ok (5 ∷ 5 ∷ 9 ∷ [])
unfolding to_pem of_ecdsa_key to_ecdsa_private_key key encode_to_string decode_string big_bytes
    set_bytes padded_pair halves left_pad_bytes
written = refl

new_from_pem-to_pem_example :
    new_from_pem toy_pem (5 ∷ 5 ∷ 9 ∷ []) (codes "pass") ≡ ok (of_ecdsa_key key)
new_from_pem-to_pem_example =
    new_from_pem-to_pem toy toy_pem toy_pem-laws 0 0 (of_ecdsa_key key) (codes "pass")
      (5 ∷ 5 ∷ 9 ∷ []) generated written

made : new_address_with_keys toy toy_pem 0 ≡ ok signer
unfolding new_address_with_keys new_key_pair new_address_for_keys of_ecdsa_key key toy base58_encode
    hash_pub_key decode_string encode_to_string padded_pair big_bytes checksum
made = refl

new_address_with_keys-IsValid_example :
    (k : KeyPair) × (signer.keys ≡ some k)
    × (has_keys signer ≡ true)
    × (is_valid_address toy signer ≡ ok tt)
    × (matches_pub_key toy signer.address k.public_key ≡ ok true)
    × IsKey toy (to_ecdsa_private_key k)
new_address_with_keys-IsValid_example =
    new_address_with_keys-IsValid toy toy-laws toy_pem toy_pem-laws 0 signer made
