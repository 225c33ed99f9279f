-- ===== src/Tests/Secrets.antt =====
-- The session with the secrets service at concrete inputs: small numbers, and a service that knows
-- one item.
use one_true_pairing.Common.{
  ℕ, ◌/◌, ◌-◌, ◌%◌, ◌^◌, ◌≡◌, refl, true, false, none, some, List, [], ◌∷◌, arith, length,
  replicate, if◌then◌else◌,
}
use one_true_pairing.Common.Bytes.{Bytes, codes}
use one_true_pairing.Totp.Url.{bytes_eq}
use one_true_pairing.DbusUtils.{no_owner, NewKid, wait_for_object}
use one_true_pairing.DbusUtils.Waiting.{Waits, wait_for_object-Waits}
use one_true_pairing.Secrets.Dh.{
  Modular, IsModular, DiffieHellman, key_to_be_bytes, generate_private_key, derive_public_key,
  public_key_from_be_bytes, derive_secret_key,
}
use one_true_pairing.Secrets.Dh.Agreement.{derive_secret_key-agree}
use one_true_pairing.Secrets.Dh.PrivateKey.{FirstSuitable, generate_private_key-FirstSuitable}
use one_true_pairing.Secrets.Crypto.{
  Primitives, str, byte_array, plain_crypto, get_name, set_session_output,
}
use one_true_pairing.Secrets.Crypto.Decoding.{IsEncryption, fresh}
use one_true_pairing.Secrets.Session.{
  Service, SecretSession, not_locked, try_algorithms, find_collection, unlock_collection, new,
  get_secrets, get_secret,
}
use one_true_pairing.Secrets.Session.NameMap.{IsSorted, lookup}
use one_true_pairing.Secrets.Session.Naming.{last_named, get_secrets-last_named}
use one_true_pairing.Secrets.Session.Decrypting.{get_secret-encrypt}
use one_true_pairing.Secrets.Session.Opening.{FirstLabelled, Opened, new-Opened}

abbrev pub modular : Modular
modular = record { reduce = λ p x. x % p; pow = λ p x e. x ^ e % p }

modular-IsModular : IsModular modular
modular-IsModular = record { reduce_lem = λ p x. refl; pow_lem = λ p x e. refl }

-- One limb, and the prime 23.
abbrev small : DiffieHellman
small = record { limbs = 1; prime = 23; generator = 2; generator_monty = 2 }

derive_secret_key-agree_example :
    (key_of_a : ℕ) × (key_of_b : ℕ) × (public_key_from_be_bytes modular small
        (key_to_be_bytes small (derive_public_key modular small 6))
      ≡ some key_of_a)
    × (public_key_from_be_bytes modular small
          (key_to_be_bytes small (derive_public_key modular small 9))
        ≡ some key_of_b)
    × (derive_secret_key modular small 6 key_of_b ≡ derive_secret_key modular small 9 key_of_a)
derive_secret_key-agree_example =
    derive_secret_key-agree modular-IsModular small 6 9 (omega arith) (omega arith)

generate_private_key-FirstSuitable_example :
    FirstSuitable
      ((23 - 1) / 2 - 2)
      (2 ∷ 50 ∷ 9 ∷ [])
      (generate_private_key small (2 ∷ 50 ∷ 9 ∷ []))
generate_private_key-FirstSuitable_example =
    generate_private_key-FirstSuitable small (2 ∷ 50 ∷ 9 ∷ []) (omega arith) (omega arith)

abbrev pub primitives : Primitives
primitives = record {
  modular = modular;
  hkdf_sha256 = λ secret. replicate 16 (length secret);
  decrypt_padded = λ key iv value. some value;
}

abbrev encrypt : Bytes → Bytes → Bytes → Bytes
encrypt key iv secret = secret

primitives-IsEncryption : IsEncryption primitives encrypt
primitives-IsEncryption = record {
  modular = modular-IsModular;
  decrypted = λ key iv secret l. refl;
}

-- A service that opens every session with the public key of 9, and has two items with one name.
abbrev pub service : Service
service = record {
  open_session = λ name input.
      some (byte_array (key_to_be_bytes small (derive_public_key modular small 9)), codes "/s");
  collections = some (codes "/a" ∷ codes "/b" ∷ []);
  collection_label =
      λ path. some (if bytes_eq path (codes "/b") then codes "Login" else codes "No");
  locked = λ path. some false;
  unlock = λ path. none;
  prompt = λ path. none;
  search_items = λ path attributes. some (codes "/b/1" ∷ codes "/b/2" ∷ []);
  item_label = λ path. some (codes "bank");
  item_secret = λ item session. some record { parameters = replicate 16 1; value = codes "secret" };
}

pub find_login :
    find_collection primitives service (codes "Login") (codes "/a" ∷ codes "/b" ∷ [])
    ≡ some (codes "/b")
unfolding find_collection bytes_eq
find_login = refl

not_locked_b : unlock_collection primitives service (codes "/b") ≡ some not_locked
unfolding unlock_collection
not_locked_b = refl

get_secret-encrypt_example :
    (session : SecretSession) × (new primitives service (fresh primitives small 6) (codes "Login")
      ≡ some session)
    × (get_secret primitives service session (codes "/b/2") ≡ some (some (codes "secret")))
get_secret-encrypt_example =
    get_secret-encrypt primitives-IsEncryption service small 6 9 (replicate 16 1) (codes "secret")
      (codes "Login") (codes "/s") (codes "/b/2") (codes "/b") (codes "/a" ∷ codes "/b" ∷ [])
      not_locked (omega arith) (omega arith) refl refl refl find_login not_locked_b (λ key e. refl)

abbrev pub session : SecretSession
session = record {
  connected = true;
  algo = plain_crypto;
  session_path = codes "/s";
  collection_path = codes "/b";
}

get_secrets-last_named_example :
    (name_to_path : List (Bytes × Bytes)) × (get_secrets primitives service session
      ≡ some name_to_path)
    × IsSorted name_to_path
    × ((name : Bytes)
        → lookup name name_to_path ≡ last_named service name (codes "/b/1" ∷ codes "/b/2" ∷ []))
get_secrets-last_named_example =
    get_secrets-last_named primitives service session (codes "/b/1" ∷ codes "/b/2" ∷ []) refl refl

-- A service without the DH algorithm.
abbrev pub plain_service : Service
plain_service = record service {
  open_session =
      λ name input. if bytes_eq name (codes "plain") then some (str [], codes "/s") else none;
}

opened_plain :
    new primitives plain_service (fresh primitives small 6) (codes "Login") ≡ some session
unfolding new try_algorithms find_collection unlock_collection set_session_output bytes_eq get_name
opened_plain = refl

new-Opened_example :
    (true ≡ true)
    × Opened primitives plain_service (fresh primitives small 6) (codes "/s") plain_crypto
    × (collections : List Bytes) × (plain_service.collections ≡ some collections)
    × FirstLabelled plain_service (codes "Login") collections (some (codes "/b"))
new-Opened_example =
    new-Opened primitives plain_service (fresh primitives small 6) (codes "Login") session
      opened_plain

abbrev signals : List NewKid
signals =
    record { name = codes "b"; new_owner = some (codes ":1") }
    ∷ record { name = codes "a"; new_owner = none }
    ∷ record { name = codes "a"; new_owner = some (codes ":2") }
    ∷ []

wait_for_object-Waits_example :
    Waits (codes "a") no_owner signals (wait_for_object (codes "a") no_owner signals)
wait_for_object-Waits_example = wait_for_object-Waits (codes "a") no_owner signals
