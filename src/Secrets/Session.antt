-- ===== src/Secrets/Session.antt =====
-- one-true-pairing/src/secrets/mod.rs, `SecretSession`. The service on the bus is a parameter: what
-- it answers when it is asked, none for an error. A panic is none.
pub mod NameMap
pub mod Naming
pub mod Opening
pub mod Decrypting
use one_true_pairing.Common.{
  ℕ, Bool, true, false, ◌&&◌, ◌||◌, Option, none, some, List, [], ◌∷◌, ltb, ◌==◌, if◌then◌else◌,
}
use one_true_pairing.Common.Bytes.{Bytes, codes}
use one_true_pairing.Totp.Url.{bytes_eq, ◌>>=◌}
use one_true_pairing.Secrets.Crypto.{
  Primitives, Value, CryptoAlgorithm, plain_crypto, get_name, get_session_input, set_session_output,
  decode_secret,
}

-- A `Secret`, as far as it is used.
pub record Secret : Type 0 where
  pub parameters : Bytes
  pub value : Bytes

-- The methods that are called, on the service, a collection, a prompt or an item: their result, the
-- path of the object first. `prompt` is whether the prompt that has been triggered is dismissed.
pub record Service : Type 0 where
  pub open_session : Bytes → Value → Option (Value × Bytes)
  pub collections : Option (List Bytes)
  pub collection_label : Bytes → Option Bytes
  pub locked : Bytes → Option Bool
  pub unlock : Bytes → Option (List Bytes × Bytes)
  pub prompt : Bytes → Option Bool
  pub search_items : Bytes → List (Bytes × Bytes) → Option (List Bytes)
  pub item_label : Bytes → Option Bytes
  pub item_secret : Bytes → Bytes → Option Secret

pub record SecretSession : Type 0 where
  pub connected : Bool
  pub algo : CryptoAlgorithm
  pub session_path : Bytes
  pub collection_path : Bytes

-- How the collection came to be open, or not.
pub data Unlocking : Type 0 where
  not_locked unlocked completed dismissed : Unlocking

-- `String`'s order: byte by byte, a prefix first.
unfoldable pub bytes_ltb : Bytes → Bytes → Bool
bytes_ltb [] [] = false
bytes_ltb [] (y ∷ ys) = true
bytes_ltb (x ∷ xs) [] = false
bytes_ltb (x ∷ xs) (y ∷ ys) = ltb x y || (x == y && bytes_ltb xs ys)

-- `BTreeMap::insert`, on the entries in the order of their keys.
unfoldable pub insert : Bytes → Bytes → List (Bytes × Bytes) → List (Bytes × Bytes)
insert k v [] = (k, v) ∷ []
insert k v ((l, w) ∷ entries) =
    let rest = insert k v entries in
    if bytes_ltb k l
    then (k, v) ∷ (l, w) ∷ entries
    else if bytes_ltb l k
    then (l, w) ∷ rest
    else (l, v) ∷ entries

-- The attributes that an item of this program has.
abbrev pub search_attributes : List (Bytes × Bytes)
search_attributes = (codes "xdg:schema", codes "com.ondrahosek.OneTruePairing") ∷ []

module _ (primitives : Primitives) (service : Service) where
  -- The first algorithm that the service opens a session for.
  unfoldable pub try_algorithms : List CryptoAlgorithm → Option (Bytes × CryptoAlgorithm)
  try_algorithms [] = none
  try_algorithms (algo ∷ algorithms) =
      elim (service.open_session (get_name algo) (get_session_input algo)) [
        | none ↦ try_algorithms algorithms
        | some (session_output, session_name) ↦
            let (valid, ready) = set_session_output primitives algo session_output in
            if valid then some (session_name, ready) else none
      ]

  -- The first collection with the label.
  unfoldable pub find_collection : Bytes → List Bytes → Option Bytes
  find_collection collection_label [] = none
  find_collection collection_label (path ∷ paths) =
      let rest = find_collection collection_label paths in
      elim (service.collection_label path) [
        | none ↦ none
        | some label ↦ if bytes_eq label collection_label then some path else rest
      ]

  unfoldable pub prompt_user : Bytes → Option Unlocking
  prompt_user prompt_path = elim (service.prompt prompt_path) [
    | none ↦ none
    | some true ↦ some dismissed
    | some false ↦ some completed
  ]

  unfoldable pub unlock_collection : Bytes → Option Unlocking
  unlock_collection path = elim (service.locked path) [
    | none ↦ none
    | some false ↦ some not_locked
    | some true ↦ elim (service.unlock path) [
      | none ↦ none
      | some ([], prompt_path) ↦ prompt_user prompt_path
      | some ((unlocked_path ∷ unlocked_paths), prompt_path) ↦ some unlocked
    ]
  ]

  -- `SecretSession::new`, for the DH algorithm that has been made.
  unfoldable pub new : CryptoAlgorithm → Bytes → Option SecretSession
  new dh_algorithm collection_label = do
    (session_path, algo) ← try_algorithms (dh_algorithm ∷ plain_crypto ∷ [])
    collections ← service.collections
    collection_path ← find_collection collection_label collections
    _ ← unlock_collection collection_path
    some record {
      connected = true;
      algo = algo;
      session_path = session_path;
      collection_path = collection_path;
    }

  -- The loop over the items: one whose label cannot be read is skipped.
  unfoldable pub name_items : List (Bytes × Bytes) → List Bytes → List (Bytes × Bytes)
  name_items name_to_path [] = name_to_path
  name_items name_to_path (item_path ∷ item_paths) = elim (service.item_label item_path) [
    | none ↦ name_items name_to_path item_paths
    | some name ↦ name_items (insert name item_path name_to_path) item_paths
  ]

  unfoldable pub get_secrets : SecretSession → Option (List (Bytes × Bytes))
  get_secrets session =
      if session.connected
      then elim (service.search_items session.collection_path search_attributes) [
        | none ↦ none
        | some item_paths ↦ some (name_items [] item_paths)
      ]
      else none

  -- The outer none is a panic, the inner one the `None` that is returned.
  unfoldable pub get_secret : SecretSession → Bytes → Option (Option Bytes)
  get_secret session item_path =
      if session.connected
      then some (elim (service.item_secret item_path session.session_path) [
        | none ↦ none
        | some secret ↦ decode_secret primitives session.algo secret.parameters secret.value
      ])
      else none

-- `drop_connection`
unfoldable pub drop_connection : SecretSession → SecretSession
drop_connection session = record session { connected = false }
