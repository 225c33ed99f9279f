-- ===== src/WhaleLand/Protocol/Wayland/Core.antt =====
-- whale-land/src/protocol/wayland.rs: wl_display, wl_registry, wl_callback, wl_compositor, wl_region, wl_fixes. A list holds what the event handler
-- or the request proxy of an interface can decode or send.
use one_true_pairing.Common.{true, false, List, [], ◌∷◌}
use one_true_pairing.Wlproto.Model.{int, new_id, object_id, string, uint}
use one_true_pairing.WhaleLand.Protocol.{Message, field}

abbrev pub wl_display_request_sync : Message
wl_display_request_sync = record { opcode = 0; fields = field "callback" new_id true ∷ [] }

abbrev pub wl_display_request_get_registry : Message
wl_display_request_get_registry = record { opcode = 1; fields = field "registry" new_id true ∷ [] }

abbrev pub wl_display_event_error : Message
wl_display_event_error = record {
  opcode = 0;
  fields =
      field "object_id" object_id false
      ∷ field "code" uint false
      ∷ field "message" string false
      ∷ [];
}

abbrev pub wl_display_event_delete_id : Message
wl_display_event_delete_id = record { opcode = 1; fields = field "id" uint false ∷ [] }

abbrev pub wl_display_requests : List Message
wl_display_requests = wl_display_request_sync ∷ wl_display_request_get_registry ∷ []

abbrev pub wl_display_events : List Message
wl_display_events = wl_display_event_error ∷ wl_display_event_delete_id ∷ []

abbrev pub wl_registry_request_bind : Message
wl_registry_request_bind = record {
  opcode = 0;
  fields = field "name" uint false ∷ field "id" new_id false ∷ [];
}

abbrev pub wl_registry_event_global : Message
wl_registry_event_global = record {
  opcode = 0;
  fields =
      field "name" uint false ∷ field "interface" string false ∷ field "version" uint false ∷ [];
}

abbrev pub wl_registry_event_global_remove : Message
wl_registry_event_global_remove = record { opcode = 1; fields = field "name" uint false ∷ [] }

abbrev pub wl_registry_requests : List Message
wl_registry_requests = wl_registry_request_bind ∷ []

abbrev pub wl_registry_events : List Message
wl_registry_events = wl_registry_event_global ∷ wl_registry_event_global_remove ∷ []

abbrev pub wl_callback_event_done : Message
wl_callback_event_done = record { opcode = 0; fields = field "callback_data" uint false ∷ [] }

abbrev pub wl_callback_events : List Message
wl_callback_events = wl_callback_event_done ∷ []

abbrev pub wl_compositor_request_create_surface : Message
wl_compositor_request_create_surface = record { opcode = 0; fields = field "id" new_id true ∷ [] }

abbrev pub wl_compositor_request_create_region : Message
wl_compositor_request_create_region = record { opcode = 1; fields = field "id" new_id true ∷ [] }

abbrev pub wl_compositor_requests : List Message
wl_compositor_requests =
    wl_compositor_request_create_surface ∷ wl_compositor_request_create_region ∷ []

abbrev pub wl_region_request_destroy : Message
wl_region_request_destroy = record { opcode = 0; fields = [] }

abbrev pub wl_region_request_add : Message
wl_region_request_add = record {
  opcode = 1;
  fields =
      field "x" int false
      ∷ field "y" int false
      ∷ field "width" int false
      ∷ field "height" int false
      ∷ [];
}

abbrev pub wl_region_request_subtract : Message
wl_region_request_subtract = record {
  opcode = 2;
  fields =
      field "x" int false
      ∷ field "y" int false
      ∷ field "width" int false
      ∷ field "height" int false
      ∷ [];
}

abbrev pub wl_region_requests : List Message
wl_region_requests =
    wl_region_request_destroy ∷ wl_region_request_add ∷ wl_region_request_subtract ∷ []

abbrev pub wl_fixes_request_destroy : Message
wl_fixes_request_destroy = record { opcode = 0; fields = [] }

abbrev pub wl_fixes_request_destroy_registry : Message
wl_fixes_request_destroy_registry = record {
  opcode = 1;
  fields = field "registry" object_id false ∷ [];
}

abbrev pub wl_fixes_requests : List Message
wl_fixes_requests = wl_fixes_request_destroy ∷ wl_fixes_request_destroy_registry ∷ []
