-- ===== src/Menu/Click.antt =====
-- one-true-pairing/src/notifier/mod.rs, `event`: what a click on an item of the menu does. The
-- session with the secrets, whose panics are none, the HMAC and the clock are parameters.
pub mod Format
pub mod Codes
pub mod Outcome
pub mod Shown
use one_true_pairing.Common.{
  ℕ, zero, suc, ◌+◌, ◌-◌, ◌*◌, ◌/◌, ◌%◌, ◌^◌, Bool, true, false, Option, none, some, List, [], ◌∷◌,
  ◌++◌, map, ltb, ◌==◌, if◌then◌else◌, length, get_elem?, replicate,
}
use one_true_pairing.Common.Int.{ℤ, pos, negsuc}
use one_true_pairing.Common.Bytes.{Bytes, codes, is_utf8}
use one_true_pairing.Totp.Hotp.{Algorithm, sha1, sha256, sha512, totp_now}
use one_true_pairing.Totp.Url.{
  bytes_eq, TotpParameters, default_algorithm, default_digits, default_period_seconds,
  try_from_otpauth_url, ◌>>=◌,
}
use one_true_pairing.Clipboard.State.{ClipboardMessage, copy, exit}
use one_true_pairing.Menu.Layout.{menu_separator_id, menu_update_id, menu_exit_id}

pub data MenuEvent : Type 0 where
  clicked hovered : MenuEvent

-- `ContextMenu`: the map from names to paths in its order, what has been sent to the clipboard, the
-- counter of revisions, and the revisions that `layout_updated` has announced.
pub record ContextMenu : Type 0 where
  pub secret_name_to_path : List (Bytes × Bytes)
  pub sent : List ClipboardMessage
  pub menu_revision : ℕ
  pub layouts_updated : List ℕ

unfoldable pub new : List (Bytes × Bytes) → ContextMenu
new secret_name_to_path = record {
  secret_name_to_path = secret_name_to_path;
  sent = [];
  menu_revision = 1;
  layouts_updated = [];
}

-- `self.clipboard_sender.send(..)`, whose result is ignored.
abbrev pub send_message : ClipboardMessage → ContextMenu → ContextMenu
send_message m menu = record menu { sent = menu.sent ++ (m ∷ []) }

abbrev pub unwrap_or : {A : Type 0} → A → Option A → A
unwrap_or a none = a
unwrap_or a (some b) = b

-- The `match algorithm_name`
unfoldable pub algorithm_of : Bytes → Option Algorithm
algorithm_of name =
    if bytes_eq name (codes "SHA1")
    then some sha1
    else if bytes_eq name (codes "SHA256")
    then some sha256
    else if bytes_eq name (codes "SHA512")
    then some sha512
    else none

-- The decimal digits of a number below 10 ^ `fuel`, the first one not zero.
unfoldable pub decimal : ℕ → ℕ → Bytes
decimal zero n = []
decimal (suc fuel) n =
    let before = decimal fuel (n / 10) in
    if ltb n 10 then (b'0' + n) ∷ [] else before ++ ((b'0' + n % 10) ∷ [])

-- `format!("{0:01$}", otp_code, digits)`: zeros fill up the width. A `u32` has ten digits at most.
unfoldable pub format_code : ℕ → ℕ → Bytes
unfolding decimal
format_code otp_code width =
    replicate (width - length (decimal 10 otp_code)) b'0' ++ decimal 10 otp_code

-- What one click can come to: the menu goes on with this state, or a panic.
pub data Clicked : Type 0 where
  returned : ContextMenu → Clicked
  panicked : Clicked

abbrev pub is_id_of : ℕ → ℤ → Bool
is_id_of i (pos n) = n == i
is_id_of i (negsuc n) = false

module _ (get_secrets : Option (List (Bytes × Bytes))) (get_secret : Bytes → Option (Option Bytes))
    (hmac : Algorithm → Bytes → Bytes → Bytes) (clock : Option ℕ) where
  -- The click on "Update menu": the new secrets, and the old revision is announced.
  unfoldable pub update_menu : ContextMenu → Clicked
  update_menu menu = elim get_secrets [
    | none ↦ panicked
    | some new_secrets ↦ returned record menu {
      secret_name_to_path = new_secrets;
      menu_revision = (menu.menu_revision + 1) % 2 ^ 32;
      layouts_updated = menu.layouts_updated ++ (menu.menu_revision ∷ []);
    }
  ]

  -- From the algorithm on: the code, with the digits that it is to have.
  unfoldable pub copy_code : TotpParameters → Algorithm → ContextMenu → Clicked
  copy_code params algorithm menu =
      let digits = unwrap_or default_digits params.digits in
      elim (totp_now hmac clock algorithm params.key
        (unwrap_or default_period_seconds params.period_seconds) digits) [
          | none ↦ panicked
          | some otp_code ↦ returned (send_message (copy (format_code otp_code digits)) menu)
        ]

  unfoldable pub use_parameters : TotpParameters → ContextMenu → Clicked
  use_parameters params menu = elim (algorithm_of (unwrap_or default_algorithm params.algorithm)) [
    | none ↦ returned menu
    | some algorithm ↦ copy_code params algorithm menu
  ]

  -- `from_utf8(..).expect(..)`, and the URL.
  unfoldable pub use_secret : Bytes → ContextMenu → Clicked
  use_secret secret menu =
      if is_utf8 secret
      then elim (try_from_otpauth_url secret) [
        | none ↦ returned menu
        | some params ↦ use_parameters params menu
      ]
      else panicked

  -- The `actual_index`-th of the paths.
  unfoldable pub click_secret : ℕ → ContextMenu → Clicked
  click_secret actual_index menu = elim (get_elem? menu.secret_name_to_path actual_index) [
    | none ↦ returned menu
    | some (name, path) ↦ elim (get_secret path) [
      | none ↦ panicked
      | some none ↦ returned menu
      | some (some secret) ↦ use_secret secret menu
    ]
  ]

  -- The arm `index`: `index - 1` overflows at the least `i32`, and is no `usize` below 1.
  unfoldable pub click_index : ℤ → ContextMenu → Clicked
  click_index (pos zero) menu = returned menu
  click_index (pos (suc n)) menu = click_secret n menu
  click_index (negsuc n) menu = if n == 2 ^ 31 - 1 then panicked else returned menu

  unfoldable pub click : ℤ → ContextMenu → Clicked
  click id menu =
      if is_id_of menu_separator_id id
      then returned menu
      else if is_id_of menu_exit_id id
      then returned (send_message exit menu)
      else if is_id_of menu_update_id id
      then update_menu menu
      else click_index id menu

  unfoldable pub event : ℤ → MenuEvent → ContextMenu → Clicked
  event id clicked menu = click id menu
  event id hovered menu = returned menu
