-- ===== src/WhaleLand/Protocol/Wayland/Surface.antt =====
-- whale-land/src/protocol/wayland.rs: wl_surface, wl_subcompositor, wl_subsurface. A list holds what the event handler
-- or the request proxy of an interface can decode or send.
use one_true_pairing.Common.{true, false, List, [], ◌∷◌}
use one_true_pairing.Wlproto.Model.{int, new_id, object_id, uint}
use one_true_pairing.WhaleLand.Protocol.{Message, field}

abbrev pub wl_surface_request_destroy : Message
wl_surface_request_destroy = record { opcode = 0; fields = [] }

abbrev pub wl_surface_request_attach : Message
wl_surface_request_attach = record {
  opcode = 1;
  fields = field "buffer" object_id false ∷ field "x" int false ∷ field "y" int false ∷ [];
}

abbrev pub wl_surface_request_damage : Message
wl_surface_request_damage = record {
  opcode = 2;
  fields =
      field "x" int false
      ∷ field "y" int false
      ∷ field "width" int false
      ∷ field "height" int false
      ∷ [];
}

abbrev pub wl_surface_request_frame : Message
wl_surface_request_frame = record { opcode = 3; fields = field "callback" new_id true ∷ [] }

abbrev pub wl_surface_request_set_opaque_region : Message
wl_surface_request_set_opaque_region = record {
  opcode = 4;
  fields = field "region" object_id false ∷ [];
}

abbrev pub wl_surface_request_set_input_region : Message
wl_surface_request_set_input_region = record {
  opcode = 5;
  fields = field "region" object_id false ∷ [];
}

abbrev pub wl_surface_request_commit : Message
wl_surface_request_commit = record { opcode = 6; fields = [] }

abbrev pub wl_surface_request_set_buffer_transform : Message
wl_surface_request_set_buffer_transform = record {
  opcode = 7;
  fields = field "transform" int false ∷ [];
}

abbrev pub wl_surface_request_set_buffer_scale : Message
wl_surface_request_set_buffer_scale = record { opcode = 8; fields = field "scale" int false ∷ [] }

abbrev pub wl_surface_request_damage_buffer : Message
wl_surface_request_damage_buffer = record {
  opcode = 9;
  fields =
      field "x" int false
      ∷ field "y" int false
      ∷ field "width" int false
      ∷ field "height" int false
      ∷ [];
}

abbrev pub wl_surface_request_offset : Message
wl_surface_request_offset = record {
  opcode = 10;
  fields = field "x" int false ∷ field "y" int false ∷ [];
}

abbrev pub wl_surface_event_enter : Message
wl_surface_event_enter = record { opcode = 0; fields = field "output" object_id false ∷ [] }

abbrev pub wl_surface_event_leave : Message
wl_surface_event_leave = record { opcode = 1; fields = field "output" object_id false ∷ [] }

abbrev pub wl_surface_event_preferred_buffer_scale : Message
wl_surface_event_preferred_buffer_scale = record {
  opcode = 2;
  fields = field "factor" int false ∷ [];
}

abbrev pub wl_surface_event_preferred_buffer_transform : Message
wl_surface_event_preferred_buffer_transform = record {
  opcode = 3;
  fields = field "transform" uint false ∷ [];
}

abbrev pub wl_surface_requests : List Message
wl_surface_requests =
    wl_surface_request_destroy ∷ wl_surface_request_attach ∷ wl_surface_request_damage
    ∷ wl_surface_request_frame ∷ wl_surface_request_set_opaque_region
    ∷ wl_surface_request_set_input_region ∷ wl_surface_request_commit
    ∷ wl_surface_request_set_buffer_transform ∷ wl_surface_request_set_buffer_scale
    ∷ wl_surface_request_damage_buffer ∷ wl_surface_request_offset ∷ []

abbrev pub wl_surface_events : List Message
wl_surface_events =
    wl_surface_event_enter ∷ wl_surface_event_leave ∷ wl_surface_event_preferred_buffer_scale
    ∷ wl_surface_event_preferred_buffer_transform ∷ []

abbrev pub wl_subcompositor_request_destroy : Message
wl_subcompositor_request_destroy = record { opcode = 0; fields = [] }

abbrev pub wl_subcompositor_request_get_subsurface : Message
wl_subcompositor_request_get_subsurface = record {
  opcode = 1;
  fields =
      field "id" new_id true
      ∷ field "surface" object_id false
      ∷ field "parent" object_id false
      ∷ [];
}

abbrev pub wl_subcompositor_requests : List Message
wl_subcompositor_requests =
    wl_subcompositor_request_destroy ∷ wl_subcompositor_request_get_subsurface ∷ []

abbrev pub wl_subsurface_request_destroy : Message
wl_subsurface_request_destroy = record { opcode = 0; fields = [] }

abbrev pub wl_subsurface_request_set_position : Message
wl_subsurface_request_set_position = record {
  opcode = 1;
  fields = field "x" int false ∷ field "y" int false ∷ [];
}

abbrev pub wl_subsurface_request_place_above : Message
wl_subsurface_request_place_above = record {
  opcode = 2;
  fields = field "sibling" object_id false ∷ [];
}

abbrev pub wl_subsurface_request_place_below : Message
wl_subsurface_request_place_below = record {
  opcode = 3;
  fields = field "sibling" object_id false ∷ [];
}

abbrev pub wl_subsurface_request_set_sync : Message
wl_subsurface_request_set_sync = record { opcode = 4; fields = [] }

abbrev pub wl_subsurface_request_set_desync : Message
wl_subsurface_request_set_desync = record { opcode = 5; fields = [] }

abbrev pub wl_subsurface_requests : List Message
wl_subsurface_requests =
    wl_subsurface_request_destroy ∷ wl_subsurface_request_set_position
    ∷ wl_subsurface_request_place_above ∷ wl_subsurface_request_place_below
    ∷ wl_subsurface_request_set_sync ∷ wl_subsurface_request_set_desync ∷ []
