-- ===== src/Dbus.antt =====
-- one-true-pairing/src/notifier and secrets: the D-Bus interfaces, as their members with the types
-- of Rust. The macros of zbus and zvariant make the members of the bus from them.
pub mod Secrets
pub mod Notifier
pub mod TrayIcon
use one_true_pairing.Common.{List, [], ◌∷◌}
use one_true_pairing.Common.Bytes.{Bytes}

-- The types of the arguments and results.
pub data MemberType : Type 0 where
  unit i32 u8 u32 u64 bool string str owned_value value object_path owned_object_path : MemberType
  item_status item_category menu_status menu_event image tool_tip menu_layout secret : MemberType
  vec : MemberType → MemberType
  slice : MemberType → MemberType
  hash_map : MemberType → MemberType → MemberType
  pair : MemberType → MemberType → MemberType

-- A member of an interface, under its name in Rust. A setter is a property with an argument.
pub data Member : Type 0 where
  method : Bytes → List MemberType → MemberType → Member
  property : Bytes → MemberType → Member
  setter : Bytes → MemberType → Member
  signal : Bytes → List MemberType → Member

pub record BusInterface : Type 0 where
  pub interface : Bytes
  pub members : List Member

-- The types of D-Bus. A text stands for `s`, a value for `v`.
mutual
  pub data Signature : Type 0 where
    int32 byte uint32 uint64 boolean text path variant : Signature
    array : Signature → Signature
    dict : Signature → Signature → Signature
    structure : Signatures → Signature

  pub data Signatures : Type 0 where
    nil : Signatures
    cons : Signature → Signatures → Signatures

-- `#[zvariant(signature = "s")]`, and the derived types of the structures: the signature of a type.
unfoldable pub signature : MemberType → Signature
signature unit = structure nil
signature i32 = int32
signature u8 = byte
signature u32 = uint32
signature u64 = uint64
signature bool = boolean
signature string = text
signature str = text
signature owned_value = variant
signature value = variant
signature object_path = path
signature owned_object_path = path
signature item_status = text
signature item_category = text
signature menu_status = text
signature menu_event = text
signature image = structure (cons int32 (cons int32 (cons (array byte) nil)))
signature tool_tip = structure (
    cons text (
      cons (array (structure (cons int32 (cons int32 (cons (array byte) nil)))))
        (cons text (cons text nil))))
signature menu_layout = structure (cons int32 (cons (dict text variant) (cons (array variant) nil)))
signature secret = structure (cons path (cons (array byte) (cons (array byte) (cons text nil))))
signature (vec t) = array (signature t)
signature (slice t) = array (signature t)
signature (hash_map k v) = dict (signature k) (signature v)
signature (pair a b) = structure (cons (signature a) (cons (signature b) nil))
