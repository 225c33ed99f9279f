-- ===== src/Secrets/Crypto/Decoding.antt =====
-- crypto.rs and dh.rs: a secret that the service encrypts for the session is read again.
use one_true_pairing.Common.{ℕ, ◌*◌, ◌^◌, ◌<◌, ◌≡◌, refl, true, none, some, ◌==◌, ==_iff, length}
use one_true_pairing.Common.Bytes.{Bytes}
use one_true_pairing.Secrets.Dh.{
  IsModular, DiffieHellman, derive_public_key, public_key_from_be_bytes, derive_secret_key,
  key_to_be_bytes, to_be_byte_vec,
}
use one_true_pairing.Secrets.Dh.Agreement.{derive_secret_key-agree}
use one_true_pairing.Secrets.Crypto.{
  Primitives, byte_array, CryptoAlgorithm, dh_crypto, get_session_input, set_session_output,
  decode_secret,
}

-- The encryption that the service uses: what it encrypts with 16 bytes of an initialization
-- vector is decrypted to the same bytes.
pub record IsEncryption (primitives : Primitives) (encrypt : Bytes → Bytes → Bytes → Bytes)
    : Type 0 where
  pub modular : IsModular primitives.modular
  pub decrypted :
      (key iv secret : Bytes)
      → length iv ≡ 16
      → primitives.decrypt_padded key iv (encrypt key iv secret) ≡ some secret

-- The algorithm with a private key, as it is before a session.
abbrev pub fresh : Primitives → DiffieHellman → ℕ → CryptoAlgorithm
fresh primitives dh privkey = dh_crypto record {
  dh = dh;
  privkey = privkey;
  pubkey = derive_public_key primitives.modular dh privkey;
  aes_key = none;
}

module _ {primitives : Primitives} {encrypt : Bytes → Bytes → Bytes → Bytes}
    (laws : IsEncryption primitives encrypt) where
  -- The service reads the client's public key from the session's input; with the service's public
  -- key as output the algorithm is set up, and decodes what the service encrypts under its key to
  -- the same secret, provided the numbers of the group fit into its limbs, the initialization
  -- vector has 16 bytes, the modular numbers compute modulo the prime, and the cipher decrypts
  -- what it encrypts.
  pub decode_secret-encrypt :
      (dh : DiffieHellman) (a b : ℕ) (iv secret : Bytes)
      → 0 < dh.prime
      → dh.prime < 2 ^ (64 * dh.limbs)
      → length iv ≡ 16
      → (key_of_a : ℕ) × (algo : CryptoAlgorithm) × (get_session_input (fresh primitives dh a)
          ≡ byte_array (key_to_be_bytes dh (derive_public_key primitives.modular dh a)))
        × (public_key_from_be_bytes primitives.modular dh
              (key_to_be_bytes dh (derive_public_key primitives.modular dh a))
            ≡ some key_of_a)
        × (set_session_output primitives
              (fresh primitives dh a)
              (byte_array (key_to_be_bytes dh (derive_public_key primitives.modular dh b)))
            ≡ (true, algo))
        × (decode_secret primitives algo iv (
              encrypt
                (primitives.hkdf_sha256
                  (to_be_byte_vec dh.limbs (derive_secret_key primitives.modular dh b key_of_a)))
                iv
                secret)
            ≡ some secret)
  unfolding get_session_input set_session_output decode_secret
  decode_secret-encrypt dh a b iv secret h k l =
      let (key_of_a, key_of_b, e, f, agree) = derive_secret_key-agree laws.modular dh a b h k in
      let n : (length iv == 16) ≡ true = (==_iff (length iv) 16).1 l in
      (
        key_of_a,
        dh_crypto record {
          dh = dh;
          privkey = a;
          pubkey = derive_public_key primitives.modular dh a;
          aes_key = some (
              primitives.hkdf_sha256
                (to_be_byte_vec dh.limbs (derive_secret_key primitives.modular dh a key_of_b)));
        },
        refl,
        e,
        rw (f, set_session_output) refl,
        rw (n, decode_secret) (rw agree (laws.decrypted _ iv secret l)),
      )
