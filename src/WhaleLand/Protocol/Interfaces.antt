-- ===== src/WhaleLand/Protocol/Interfaces.antt =====
-- whale-land/src/protocol: all interfaces, and the numbers of their requests and events.
use one_true_pairing.Common.{ℕ, suc, ◌≡◌, List, [], ◌∷◌}
use one_true_pairing.WhaleLand.Protocol.{Message}
use one_true_pairing.WhaleLand.Protocol.ExtDataControl.{
  device_events, source_events, offer_events, manager_requests, device_requests, source_requests,
  offer_requests,
}
use one_true_pairing.WhaleLand.Protocol.Wayland.{
  wl_display_events, wl_registry_events, wl_callback_events, wl_shm_events, wl_buffer_events,
  wl_data_offer_events, wl_data_source_events, wl_data_device_events, wl_shell_surface_events,
  wl_surface_events, wl_seat_events, wl_pointer_events, wl_keyboard_events, wl_touch_events,
  wl_output_events, wl_display_requests, wl_registry_requests, wl_compositor_requests,
  wl_region_requests, wl_fixes_requests, wl_shm_requests, wl_shm_pool_requests, wl_buffer_requests,
  wl_data_offer_requests, wl_data_source_requests, wl_data_device_requests,
  wl_data_device_manager_requests, wl_shell_requests, wl_shell_surface_requests,
  wl_surface_requests, wl_subcompositor_requests, wl_subsurface_requests, wl_seat_requests,
  wl_pointer_requests, wl_keyboard_requests, wl_touch_requests, wl_output_requests,
}

-- The opcodes count up from `n` in the order of the list.
abbrev pub IsNumbered : ℕ → List Message → Type 0
IsNumbered n [] = Unit
IsNumbered n (m ∷ ms) = (m.opcode ≡ n) × IsNumbered (suc n) ms

-- What the generated event handlers match on.
abbrev pub event_interfaces : List (List Message)
event_interfaces =
    wl_display_events ∷ wl_registry_events ∷ wl_callback_events ∷ wl_shm_events ∷ wl_buffer_events
    ∷ wl_data_offer_events ∷ wl_data_source_events ∷ wl_data_device_events ∷ wl_shell_surface_events
    ∷ wl_surface_events ∷ wl_seat_events ∷ wl_pointer_events ∷ wl_keyboard_events ∷ wl_touch_events
    ∷ wl_output_events ∷ device_events ∷ source_events ∷ offer_events ∷ []

-- What the generated request proxies send.
abbrev pub request_interfaces : List (List Message)
request_interfaces =
    wl_display_requests ∷ wl_registry_requests ∷ wl_compositor_requests ∷ wl_region_requests
    ∷ wl_fixes_requests ∷ wl_shm_requests ∷ wl_shm_pool_requests ∷ wl_buffer_requests
    ∷ wl_data_offer_requests ∷ wl_data_source_requests ∷ wl_data_device_requests
    ∷ wl_data_device_manager_requests ∷ wl_shell_requests ∷ wl_shell_surface_requests
    ∷ wl_surface_requests ∷ wl_subcompositor_requests ∷ wl_subsurface_requests ∷ wl_seat_requests
    ∷ wl_pointer_requests ∷ wl_keyboard_requests ∷ wl_touch_requests ∷ wl_output_requests
    ∷ manager_requests ∷ device_requests ∷ source_requests ∷ offer_requests ∷ []
