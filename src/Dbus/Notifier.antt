-- ===== src/Dbus/Notifier.antt =====
-- one-true-pairing/src/notifier/proxies.rs: the interfaces of the tray icon and its menu, as those
-- who call them see them.
use one_true_pairing.Common.{[], ◌∷◌}
use one_true_pairing.Common.Bytes.{codes}
use one_true_pairing.Dbus.{
  unit, i32, u32, bool, string, owned_value, owned_object_path, item_status, item_category,
  menu_status, image, tool_tip, menu_layout, vec, hash_map, pair, method, property, signal,
  BusInterface,
}

abbrev pub status_notifier_watcher : BusInterface
status_notifier_watcher = record {
  interface = codes "org.kde.StatusNotifierWatcher";
  members =
      method (codes "register_status_notifier_item") (string ∷ []) unit
      ∷ method (codes "register_status_notifier_host") (string ∷ []) unit
      ∷ property (codes "registered_status_notifier_items") (vec string)
      ∷ property (codes "is_status_notifier_host_registered") bool
      ∷ property (codes "protocol_version") i32
      ∷ signal (codes "status_notifier_item_registered") (string ∷ [])
      ∷ signal (codes "status_notifier_item_unregistered") (string ∷ [])
      ∷ signal (codes "status_notifier_host_registered") []
      ∷ signal (codes "status_notifier_host_unregistered") []
      ∷ [];
}

abbrev pub status_notifier_item : BusInterface
status_notifier_item = record {
  interface = codes "org.kde.StatusNotifierItem";
  members =
      property (codes "category") item_category
      ∷ property (codes "id") string
      ∷ property (codes "title") string
      ∷ property (codes "status") item_status
      ∷ property (codes "window_id") i32
      ∷ property (codes "icon_theme_path") string
      ∷ property (codes "menu") owned_object_path
      ∷ property (codes "item_is_menu") bool
      ∷ property (codes "icon_name") string
      ∷ property (codes "icon_pixmap") (vec image)
      ∷ property (codes "overlay_icon_name") string
      ∷ property (codes "overlay_icon_pixmap") (vec image)
      ∷ property (codes "attention_icon_name") string
      ∷ property (codes "attention_icon_pixmap") (vec image)
      ∷ property (codes "attention_movie_name") string
      ∷ property (codes "tool_tip") tool_tip
      ∷ method (codes "context_menu") (i32 ∷ i32 ∷ []) unit
      ∷ method (codes "activate") (i32 ∷ i32 ∷ []) unit
      ∷ method (codes "secondary_activate") (i32 ∷ i32 ∷ []) unit
      ∷ method (codes "scroll") (i32 ∷ string ∷ []) unit
      ∷ signal (codes "new_title") []
      ∷ signal (codes "new_icon") []
      ∷ signal (codes "new_attention_icon") []
      ∷ signal (codes "new_overlay_icon") []
      ∷ signal (codes "new_tool_tip") []
      ∷ signal (codes "new_status") (item_status ∷ [])
      ∷ [];
}

abbrev pub menu : BusInterface
menu = record {
  interface = codes "com.canonical.dbusmenu";
  members =
      property (codes "version") u32
      ∷ property (codes "status") menu_status
      ∷ method (codes "get_layout") (i32 ∷ i32 ∷ vec string ∷ []) (pair u32 menu_layout)
      ∷ method (codes "get_group_properties") (vec i32 ∷ vec string ∷ [])
          (vec (pair i32 (hash_map string owned_value)))
      ∷ method (codes "get_property") (i32 ∷ string ∷ []) owned_value
      ∷ method (codes "event") (i32 ∷ string ∷ owned_value ∷ u32 ∷ []) unit
      ∷ method (codes "about_to_show") (i32 ∷ []) bool
      ∷ signal (codes "items_properties_updated")
          (vec (pair i32 (hash_map string owned_value)) ∷ vec (pair i32 (vec string)) ∷ [])
      ∷ signal (codes "layout_updated") (u32 ∷ i32 ∷ [])
      ∷ signal (codes "item_activation_requested") (i32 ∷ u32 ∷ [])
      ∷ [];
}
