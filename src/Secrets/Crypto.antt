-- ===== src/Secrets/Crypto.antt =====
-- one-true-pairing/src/secrets/crypto.rs: the two algorithms of a session. The primitives of the
-- packages are a parameter.
pub mod Decoding
use one_true_pairing.Common.{
  ℕ, ◌+◌, ◌*◌, ◌≡◌, Bool, true, false, Option, none, some, List, [], ◌∷◌, ◌==◌, if◌then◌else◌,
  length,
}
use one_true_pairing.Common.Bytes.{Bytes, codes}
use one_true_pairing.Secrets.Dh.{
  Modular, DiffieHellman, new, Generation, generated, drawing, panicked, generate_private_key,
  derive_public_key, public_key_from_be_bytes, derive_secret_key, key_to_be_bytes, to_be_byte_vec,
}

-- A D-Bus value: a text, an array of bytes, or anything else.
pub data Value : Type 0 where
  str : Bytes → Value
  byte_array : Bytes → Value
  other : Value

-- What the packages compute: numbers modulo a number, 16 bytes of HKDF with SHA-256 from a secret
-- without salt and info, and AES-128 in CBC mode (the key, the initialization vector, the
-- ciphertext), none where the padding is wrong.
pub record Primitives : Type 0 where
  pub modular : Modular
  pub hkdf_sha256 : Bytes → Bytes
  pub decrypt_padded : Bytes → Bytes → Bytes → Option Bytes

abbrev pub oakley_2_limbs : ℕ
oakley_2_limbs = 16

abbrev pub oakley_2_prime : ℕ
oakley_2_prime =
    179769313486231590770839156793787453197860296048756011706444423684197180216158519368947833795864925541502180565485980503646440548199239100050792877003355816639229553136239076508735759914822574862575007425302077447712589550957937778424442426617334727629299387668709205606050270810842907692932019128194467627007

abbrev pub oakley_2_generator : ℕ
oakley_2_generator = 2

-- `DhIetf1024Sha256Aes128CbcPkcs7Crypto`
pub record DhCrypto : Type 0 where
  pub dh : DiffieHellman
  pub privkey : ℕ
  pub pubkey : ℕ
  pub aes_key : Option Bytes

-- A `Box<dyn CryptoAlgorithm>`
pub data CryptoAlgorithm : Type 0 where
  dh_crypto : DhCrypto → CryptoAlgorithm
  plain_crypto : CryptoAlgorithm

unfoldable pub get_name : CryptoAlgorithm → Bytes
get_name (dh_crypto c) = codes "dh-ietf1024-sha256-aes128-cbc-pkcs7"
get_name plain_crypto = codes "plain"

unfoldable pub get_session_input : CryptoAlgorithm → Value
get_session_input (dh_crypto c) = byte_array (key_to_be_bytes c.dh c.pubkey)
get_session_input plain_crypto = str []

abbrev pub is_empty : Bytes → Bool
is_empty [] = true
is_empty (b ∷ bs) = false

module _ (primitives : Primitives) where
  -- `DhIetf1024Sha256Aes128CbcPkcs7Crypto::new`: none while the random numbers do not suffice.
  unfoldable pub dh_new : List ℕ → Option CryptoAlgorithm
  dh_new rands = elim (new primitives.modular oakley_2_limbs oakley_2_prime oakley_2_generator) [
    | none ↦ none
    | some dh ↦ elim (generate_private_key dh rands) [
      | generated privkey ↦ some (
          dh_crypto record {
            dh = dh;
            privkey = privkey;
            pubkey = derive_public_key primitives.modular dh privkey;
            aes_key = none;
          })
      | drawing ↦ none
      | panicked ↦ none
    ]
  ]

  abbrev pub derive_aes_key : DhCrypto → ℕ → Bytes
  derive_aes_key c their_pubkey =
      primitives.hkdf_sha256 (
        to_be_byte_vec c.dh.limbs
          (derive_secret_key primitives.modular c.dh c.privkey their_pubkey))

  -- The result, and the algorithm after it.
  unfoldable pub set_session_output : CryptoAlgorithm → Value → Bool × CryptoAlgorithm
  set_session_output (dh_crypto c) (byte_array bytes) =
      elim (public_key_from_be_bytes primitives.modular c.dh bytes) [
        | none ↦ (false, dh_crypto c)
        | some their_pubkey ↦
            (true, dh_crypto (record c { aes_key = some (derive_aes_key c their_pubkey) }))
      ]
  set_session_output (dh_crypto c) (str s) = (false, dh_crypto c)
  set_session_output (dh_crypto c) other = (false, dh_crypto c)
  set_session_output plain_crypto (str s) = (is_empty s, plain_crypto)
  set_session_output plain_crypto (byte_array bytes) = (false, plain_crypto)
  set_session_output plain_crypto other = (false, plain_crypto)

  unfoldable pub decode_secret : CryptoAlgorithm → Bytes → Bytes → Option Bytes
  decode_secret (dh_crypto c) parameters value =
      if length parameters == 16
      then elim c.aes_key [
        | none ↦ none
        | some aes_key ↦ primitives.decrypt_padded aes_key parameters value
      ]
      else none
  decode_secret plain_crypto parameters value = if is_empty parameters then some value else none
