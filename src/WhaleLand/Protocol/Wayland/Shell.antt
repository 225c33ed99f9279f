-- ===== src/WhaleLand/Protocol/Wayland/Shell.antt =====
-- whale-land/src/protocol/wayland.rs: wl_shell, wl_shell_surface. A list holds what the event handler
-- or the request proxy of an interface can decode or send.
use one_true_pairing.Common.{true, false, List, [], ◌∷◌}
use one_true_pairing.Wlproto.Model.{int, new_id, object_id, string, uint}
use one_true_pairing.WhaleLand.Protocol.{Message, field}

abbrev pub wl_shell_request_get_shell_surface : Message
wl_shell_request_get_shell_surface = record {
  opcode = 0;
  fields = field "id" new_id true ∷ field "surface" object_id false ∷ [];
}

abbrev pub wl_shell_requests : List Message
wl_shell_requests = wl_shell_request_get_shell_surface ∷ []

abbrev pub wl_shell_surface_request_pong : Message
wl_shell_surface_request_pong = record { opcode = 0; fields = field "serial" uint false ∷ [] }

abbrev pub wl_shell_surface_request_move : Message
wl_shell_surface_request_move = record {
  opcode = 1;
  fields = field "seat" object_id false ∷ field "serial" uint false ∷ [];
}

abbrev pub wl_shell_surface_request_resize : Message
wl_shell_surface_request_resize = record {
  opcode = 2;
  fields = field "seat" object_id false ∷ field "serial" uint false ∷ field "edges" uint false ∷ [];
}

abbrev pub wl_shell_surface_request_set_toplevel : Message
wl_shell_surface_request_set_toplevel = record { opcode = 3; fields = [] }

abbrev pub wl_shell_surface_request_set_transient : Message
wl_shell_surface_request_set_transient = record {
  opcode = 4;
  fields =
      field "parent" object_id false
      ∷ field "x" int false
      ∷ field "y" int false
      ∷ field "flags" uint false
      ∷ [];
}

abbrev pub wl_shell_surface_request_set_fullscreen : Message
wl_shell_surface_request_set_fullscreen = record {
  opcode = 5;
  fields =
      field "method" uint false
      ∷ field "framerate" uint false
      ∷ field "output" object_id false
      ∷ [];
}

abbrev pub wl_shell_surface_request_set_popup : Message
wl_shell_surface_request_set_popup = record {
  opcode = 6;
  fields =
      field "seat" object_id false
      ∷ field "serial" uint false
      ∷ field "parent" object_id false
      ∷ field "x" int false
      ∷ field "y" int false
      ∷ field "flags" uint false
      ∷ [];
}

abbrev pub wl_shell_surface_request_set_maximized : Message
wl_shell_surface_request_set_maximized = record {
  opcode = 7;
  fields = field "output" object_id false ∷ [];
}

abbrev pub wl_shell_surface_request_set_title : Message
wl_shell_surface_request_set_title = record { opcode = 8; fields = field "title" string false ∷ [] }

abbrev pub wl_shell_surface_request_set_class : Message
wl_shell_surface_request_set_class = record {
  opcode = 9;
  fields = field "class_" string false ∷ [];
}

abbrev pub wl_shell_surface_event_ping : Message
wl_shell_surface_event_ping = record { opcode = 0; fields = field "serial" uint false ∷ [] }

abbrev pub wl_shell_surface_event_configure : Message
wl_shell_surface_event_configure = record {
  opcode = 1;
  fields = field "edges" uint false ∷ field "width" int false ∷ field "height" int false ∷ [];
}

abbrev pub wl_shell_surface_event_popup_done : Message
wl_shell_surface_event_popup_done = record { opcode = 2; fields = [] }

abbrev pub wl_shell_surface_requests : List Message
wl_shell_surface_requests =
    wl_shell_surface_request_pong ∷ wl_shell_surface_request_move ∷ wl_shell_surface_request_resize
    ∷ wl_shell_surface_request_set_toplevel ∷ wl_shell_surface_request_set_transient
    ∷ wl_shell_surface_request_set_fullscreen ∷ wl_shell_surface_request_set_popup
    ∷ wl_shell_surface_request_set_maximized ∷ wl_shell_surface_request_set_title
    ∷ wl_shell_surface_request_set_class ∷ []

abbrev pub wl_shell_surface_events : List Message
wl_shell_surface_events =
    wl_shell_surface_event_ping ∷ wl_shell_surface_event_configure
    ∷ wl_shell_surface_event_popup_done ∷ []
