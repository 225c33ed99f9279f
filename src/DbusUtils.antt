-- ===== src/DbusUtils.antt =====
-- one-true-pairing/src/dbus_utils.rs: waiting for a name on the bus. What the bus answers and which
-- signals come are parameters.
pub mod Waiting
use one_true_pairing.Common.{
  ℕ, Bool, true, false, not, Option, none, some, List, [], ◌∷◌, if◌then◌else◌,
}
use one_true_pairing.Common.Bytes.{Bytes}
use one_true_pairing.Totp.Url.{bytes_eq}

-- The answer to `get_name_owner`: an owner, the error `NameHasNoOwner`, or another error.
pub data NameOwner : Type 0 where
  owner : Bytes → NameOwner
  no_owner : NameOwner
  failed : NameOwner

-- A `NameOwnerChanged` signal, as far as it is read.
pub record NewKid : Type 0 where
  pub name : Bytes
  pub new_owner : Option Bytes

-- What waiting comes to once the stream of signals is over: it has returned, or a panic.
pub data Waited : Type 0 where
  returned : List NewKid → Waited
  panicked : Waited

-- The loop, with the signals that it has not read.
unfoldable pub wait_loop : Bytes → List NewKid → Waited
wait_loop object_name [] = panicked
wait_loop object_name (new_kid ∷ new_kids) =
    let rest = wait_loop object_name new_kids in
    if not (bytes_eq new_kid.name object_name)
    then rest
    else elim new_kid.new_owner [ none ↦ rest | some _ ↦ returned new_kids ]

unfoldable pub wait_for_object : Bytes → NameOwner → List NewKid → Waited
wait_for_object object_name (owner name) new_kids = returned new_kids
wait_for_object object_name no_owner new_kids = wait_loop object_name new_kids
wait_for_object object_name failed new_kids = panicked
