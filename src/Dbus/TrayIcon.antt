-- ===== src/Dbus/TrayIcon.antt =====
-- one-true-pairing/src/notifier/mod.rs: the interface of the tray icon with the values of its
-- properties, and the declarations of the menu's interface. The pixels of the icon are a file,
-- img/logo_argb8888_32x32.bin, and a parameter.
use one_true_pairing.Common.{ℕ, Bool, true, Option, none, some, List, [], ◌∷◌, if◌then◌else◌}
use one_true_pairing.Common.Int.{ℤ, pos}
use one_true_pairing.Common.Bytes.{Bytes, codes}
use one_true_pairing.Totp.Url.{bytes_eq}
use one_true_pairing.Dbus.{
  unit, i32, u32, bool, string, owned_value, owned_object_path, item_status, item_category,
  menu_status, menu_event, image, tool_tip, menu_layout, vec, hash_map, pair, method, property,
  signal, BusInterface,
}

pub data ItemStatus : Type 0 where
  passive active needs_attention : ItemStatus

pub data ItemCategory : Type 0 where
  application_status communications system_services hardware reserved : ItemCategory

pub data MenuStatus : Type 0 where
  normal notice : MenuStatus

pub record Image : Type 0 where
  pub width : ℕ
  pub height : ℕ
  pub pixels : Bytes

pub record ToolTip : Type 0 where
  pub icon : Bytes
  pub images : List Image
  pub title : Bytes
  pub sub_title : Bytes

-- The value of a property, as far as there are some.
pub data PropertyValue : Type 0 where
  category : ItemCategory → PropertyValue
  status : ItemStatus → PropertyValue
  text : Bytes → PropertyValue
  number : ℤ → PropertyValue
  flag : Bool → PropertyValue
  object_path : Bytes → PropertyValue
  pixmap : List Image → PropertyValue
  tip : ToolTip → PropertyValue

-- `MENU_BUS_PATH` of main.rs
abbrev pub menu_bus_path : Bytes
menu_bus_path = codes "/SniMenu"

abbrev pub icon_width : ℕ
icon_width = 32

abbrev pub icon_height : ℕ
icon_height = 32

module _ (image_data : Bytes) where
  -- The only image of `icon_pixmap`.
  unfoldable pub icon_pixmap : List Image
  icon_pixmap = record { width = icon_width; height = icon_height; pixels = image_data } ∷ []

  -- The values that `TrayIcon` returns, each under the name of its function.
  unfoldable pub values : List (Bytes × PropertyValue)
  unfolding icon_pixmap
  values =
      (codes "category", category application_status)
      ∷ (codes "id", text (codes "com.ondrahosek.OneTruePairing.NotifyIcon"))
      ∷ (codes "title", text [])
      ∷ (codes "status", status active)
      ∷ (codes "window_id", number (pos 0))
      ∷ (codes "icon_theme_path", text [])
      ∷ (codes "menu", object_path menu_bus_path)
      ∷ (codes "item_is_menu", flag true)
      ∷ (codes "icon_name", text [])
      ∷ (codes "icon_pixmap", pixmap icon_pixmap)
      ∷ (codes "overlay_icon_name", text [])
      ∷ (codes "overlay_icon_pixmap", pixmap [])
      ∷ (codes "attention_icon_name", text [])
      ∷ (codes "attention_icon_pixmap", pixmap [])
      ∷ (codes "attention_movie_name", text [])
      ∷ (
        codes "tool_tip",
        tip record { icon = []; images = []; title = codes "One True Pairing"; sub_title = [] },
      )
      ∷ []

-- The read of a property by its name.
unfoldable pub find_value : Bytes → List (Bytes × PropertyValue) → Option PropertyValue
find_value name [] = none
find_value name ((n, v) ∷ vs) = if bytes_eq n name then some v else find_value name vs

-- The methods and signals of `TrayIcon`. The methods return at once.
abbrev pub tray_icon : BusInterface
tray_icon = record {
  interface = codes "org.kde.StatusNotifierItem";
  members =
      property (codes "category") item_category
      ∷ property (codes "id") string
      ∷ property (codes "title") string
      ∷ property (codes "status") item_status
      ∷ property (codes "window_id") i32
      ∷ property (codes "icon_theme_path") string
      ∷ property (codes "menu") owned_object_path
      ∷ property (codes "item_is_menu") bool
      ∷ property (codes "icon_name") string
      ∷ property (codes "icon_pixmap") (vec image)
      ∷ property (codes "overlay_icon_name") string
      ∷ property (codes "overlay_icon_pixmap") (vec image)
      ∷ property (codes "attention_icon_name") string
      ∷ property (codes "attention_icon_pixmap") (vec image)
      ∷ property (codes "attention_movie_name") string
      ∷ property (codes "tool_tip") tool_tip
      ∷ method (codes "context_menu") (i32 ∷ i32 ∷ []) unit
      ∷ method (codes "activate") (i32 ∷ i32 ∷ []) unit
      ∷ method (codes "secondary_activate") (i32 ∷ i32 ∷ []) unit
      ∷ method (codes "scroll") (i32 ∷ string ∷ []) unit
      ∷ signal (codes "new_title") []
      ∷ signal (codes "new_icon") []
      ∷ signal (codes "new_attention_icon") []
      ∷ signal (codes "new_overlay_icon") []
      ∷ signal (codes "new_tool_tip") []
      ∷ signal (codes "new_status") (item_status ∷ [])
      ∷ [];
}

-- The interface of `ContextMenu`, without the emitter that zbus passes to `event`.
abbrev pub context_menu : BusInterface
context_menu = record {
  interface = codes "com.canonical.dbusmenu";
  members =
      property (codes "version") u32
      ∷ property (codes "status") menu_status
      ∷ method (codes "get_layout") (i32 ∷ i32 ∷ vec string ∷ []) (pair u32 menu_layout)
      ∷ method (codes "get_group_properties") (vec i32 ∷ vec string ∷ [])
          (vec (pair i32 (hash_map string owned_value)))
      ∷ method (codes "get_property") (i32 ∷ string ∷ []) owned_value
      ∷ method (codes "event") (i32 ∷ menu_event ∷ owned_value ∷ u32 ∷ []) unit
      ∷ method (codes "about_to_show") (i32 ∷ []) bool
      ∷ signal (codes "items_properties_updated")
          (vec (pair i32 (hash_map string owned_value)) ∷ vec (pair i32 (vec string)) ∷ [])
      ∷ signal (codes "layout_updated") (u32 ∷ i32 ∷ [])
      ∷ signal (codes "item_activation_requested") (i32 ∷ u32 ∷ [])
      ∷ [];
}

-- `ContextMenu::version` and `ContextMenu::status`
abbrev pub menu_version : ℕ
menu_version = 0

abbrev pub menu_status_of : MenuStatus
menu_status_of = normal
