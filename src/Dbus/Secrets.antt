-- ===== src/Dbus/Secrets.antt =====
-- one-true-pairing/src/secrets/proxies.rs: the interfaces of the secrets service.
use one_true_pairing.Common.{[], ◌∷◌}
use one_true_pairing.Common.Bytes.{codes}
use one_true_pairing.Dbus.{
  unit, u64, bool, string, str, owned_value, value, object_path, owned_object_path, secret, vec,
  slice, hash_map, pair, method, property, setter, signal, BusInterface,
}

abbrev pub service : BusInterface
service = record {
  interface = codes "org.freedesktop.Secret.Service";
  members =
      property (codes "collections") (vec owned_object_path)
      ∷ method (codes "open_session") (str ∷ value ∷ []) (pair owned_value owned_object_path)
      ∷ method (codes "create_collection") (hash_map string owned_value ∷ str ∷ [])
          (pair owned_object_path owned_object_path)
      ∷ method (codes "search_items") (hash_map string string ∷ [])
          (pair (vec owned_object_path) (vec owned_object_path))
      ∷ method (codes "unlock") (slice object_path ∷ [])
          (pair (vec owned_object_path) owned_object_path)
      ∷ method (codes "lock") (slice object_path ∷ [])
          (pair (vec owned_object_path) owned_object_path)
      ∷ method (codes "get_secrets") (slice object_path ∷ object_path ∷ [])
          (hash_map owned_object_path secret)
      ∷ method (codes "read_alias") (str ∷ []) owned_object_path
      ∷ method (codes "set_alias") (str ∷ object_path ∷ []) unit
      ∷ signal (codes "collection_created") (object_path ∷ [])
      ∷ signal (codes "collection_deleted") (object_path ∷ [])
      ∷ signal (codes "collection_changed") (object_path ∷ [])
      ∷ [];
}

abbrev pub collection : BusInterface
collection = record {
  interface = codes "org.freedesktop.Secret.Collection";
  members =
      property (codes "items") (vec owned_object_path)
      ∷ property (codes "label") string
      ∷ setter (codes "set_label") str
      ∷ property (codes "locked") bool
      ∷ property (codes "created") u64
      ∷ property (codes "modified") u64
      ∷ method (codes "delete") [] owned_object_path
      ∷ method (codes "search_items") (hash_map string string ∷ []) (vec owned_object_path)
      ∷ method (codes "create_item") (hash_map string owned_value ∷ secret ∷ bool ∷ [])
          (pair owned_object_path owned_object_path)
      ∷ signal (codes "item_created") (object_path ∷ [])
      ∷ signal (codes "item_deleted") (object_path ∷ [])
      ∷ signal (codes "item_changed") (object_path ∷ [])
      ∷ [];
}

abbrev pub item : BusInterface
item = record {
  interface = codes "org.freedesktop.Secret.Item";
  members =
      property (codes "locked") bool
      ∷ property (codes "attributes") (hash_map string string)
      ∷ setter (codes "set_attributes") (hash_map string string)
      ∷ property (codes "label") string
      ∷ setter (codes "set_label") str
      ∷ property (codes "created") u64
      ∷ property (codes "modified") u64
      ∷ method (codes "delete") [] owned_object_path
      ∷ method (codes "get_secret") (object_path ∷ []) secret
      ∷ method (codes "set_secret") (secret ∷ []) unit
      ∷ [];
}

abbrev pub session : BusInterface
session = record {
  interface = codes "org.freedesktop.Secret.Session";
  members = method (codes "close") [] unit ∷ [];
}

abbrev pub prompt : BusInterface
prompt = record {
  interface = codes "org.freedesktop.Secret.Prompt";
  members =
      method (codes "prompt") (str ∷ []) unit
      ∷ method (codes "dismiss") [] unit
      ∷ signal (codes "completed") (bool ∷ value ∷ [])
      ∷ [];
}
