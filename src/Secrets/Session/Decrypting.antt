-- ===== src/Secrets/Session/Decrypting.antt =====
-- secrets/mod.rs with crypto.rs and dh.rs: a session from its opening to a secret.

use one_true_pairing.Common.{ℕ, ◌^◌, ◌*◌, ◌<◌, ◌≡◌, refl, ap, true, some, List, [], ◌∷◌, length}
use one_true_pairing.Common.Bytes.{Bytes}
use one_true_pairing.Secrets.Dh.{
  DiffieHellman, derive_public_key, public_key_from_be_bytes, derive_secret_key, key_to_be_bytes,
  to_be_byte_vec,
}
use one_true_pairing.Secrets.Crypto.{
  Primitives, Value, byte_array, CryptoAlgorithm, plain_crypto, get_name, get_session_input,
  set_session_output,
}
use one_true_pairing.Secrets.Crypto.Decoding.{IsEncryption, fresh, decode_secret-encrypt}
use one_true_pairing.Secrets.Session.{
  Service, SecretSession, Unlocking, try_algorithms, find_collection, unlock_collection, new,
  get_secret,
}

module _ {primitives : Primitives} {encrypt : Bytes → Bytes → Bytes → Bytes}
    (laws : IsEncryption primitives encrypt) (service : Service) where
  first_opened :
      (algo : CryptoAlgorithm) (output : Value) (ready : CryptoAlgorithm) (session_path : Bytes)
      (algorithms : List CryptoAlgorithm)
      → service.open_session (get_name algo) (get_session_input algo) ≡ some (output, session_path)
      → set_session_output primitives algo output ≡ (true, ready)
      → try_algorithms primitives service (algo ∷ algorithms) ≡ some (session_path, ready)
  unfolding try_algorithms
  first_opened algo output ready session_path algorithms e f = rw (e, try_algorithms) (rw f refl)

  -- Where the service opens a session for the Diffie-Hellman algorithm with its public key, the
  -- collection is found and unlocked, and the item's secret is encrypted under the key that the
  -- service derives from the client's public key, new gives a session, and get_secret returns
  -- exactly the secret, provided the numbers of the group fit into its limbs, the initialization
  -- vector has 16 bytes, the modular numbers compute modulo the prime, and the cipher decrypts
  -- what it encrypts.
  pub get_secret-encrypt :
      (dh : DiffieHellman) (a b : ℕ)
      (iv secret label session_path item_path collection_path : Bytes) (collections : List Bytes)
      (how : Unlocking)
      → 0 < dh.prime
      → dh.prime < 2 ^ (64 * dh.limbs)
      → length iv ≡ 16
      → service.open_session
          (get_name (fresh primitives dh a))
          (get_session_input (fresh primitives dh a))
        ≡ some (
          byte_array (key_to_be_bytes dh (derive_public_key primitives.modular dh b)),
          session_path,
        )
      → service.collections ≡ some collections
      → find_collection primitives service label collections ≡ some collection_path
      → unlock_collection primitives service collection_path ≡ some how
      → ((key_of_a : ℕ)
          → public_key_from_be_bytes primitives.modular dh
              (key_to_be_bytes dh (derive_public_key primitives.modular dh a))
            ≡ some key_of_a
          → service.item_secret item_path session_path
            ≡ some record {
              parameters = iv;
              value =
                  encrypt
                    (primitives.hkdf_sha256 (
                      to_be_byte_vec dh.limbs (derive_secret_key primitives.modular dh b key_of_a)))
                    iv
                    secret;
            })
      → (session : SecretSession) × (new primitives service (fresh primitives dh a) label
          ≡ some session)
        × (get_secret primitives service session item_path ≡ some (some secret))
  unfolding new try_algorithms get_secret get_session_input
  get_secret-encrypt dh a b iv secret label session_path item_path collection_path collections how h
        k l e_open e_collections e_find e_unlock stored =
      let (key_of_a, algo, e_input, e_key, e_output, e_decode) =
        decode_secret-encrypt laws dh a b iv secret h k l in
      (
        record {
          connected = true;
          algo = algo;
          session_path = session_path;
          collection_path = collection_path;
        },
        rw
            (
              first_opened (fresh primitives dh a) _ algo session_path (plain_crypto ∷ []) e_open
                  e_output,
              new,
            )
            (simp e_collections (rw e_find (rw e_unlock refl))),
        rw (stored key_of_a e_key, get_secret) (ap some e_decode),
      )
