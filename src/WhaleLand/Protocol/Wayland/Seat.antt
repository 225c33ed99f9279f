-- ===== src/WhaleLand/Protocol/Wayland/Seat.antt =====
-- whale-land/src/protocol/wayland.rs: wl_seat and wl_pointer. A list holds what the
-- event handler or the request proxy of an interface can decode or send.
use one_true_pairing.Common.{true, false, List, [], ◌∷◌}
use one_true_pairing.Wlproto.Model.{fixed, int, new_id, object_id, string, uint}
use one_true_pairing.WhaleLand.Protocol.{Message, field}

abbrev pub wl_seat_request_get_pointer : Message
wl_seat_request_get_pointer = record { opcode = 0; fields = field "id" new_id true ∷ [] }

abbrev pub wl_seat_request_get_keyboard : Message
wl_seat_request_get_keyboard = record { opcode = 1; fields = field "id" new_id true ∷ [] }

abbrev pub wl_seat_request_get_touch : Message
wl_seat_request_get_touch = record { opcode = 2; fields = field "id" new_id true ∷ [] }

abbrev pub wl_seat_request_release : Message
wl_seat_request_release = record { opcode = 3; fields = [] }

abbrev pub wl_seat_event_capabilities : Message
wl_seat_event_capabilities = record { opcode = 0; fields = field "capabilities" uint false ∷ [] }

abbrev pub wl_seat_event_name : Message
wl_seat_event_name = record { opcode = 1; fields = field "name" string false ∷ [] }

abbrev pub wl_seat_requests : List Message
wl_seat_requests =
    wl_seat_request_get_pointer ∷ wl_seat_request_get_keyboard ∷ wl_seat_request_get_touch
    ∷ wl_seat_request_release ∷ []

abbrev pub wl_seat_events : List Message
wl_seat_events = wl_seat_event_capabilities ∷ wl_seat_event_name ∷ []

abbrev pub wl_pointer_request_set_cursor : Message
wl_pointer_request_set_cursor = record {
  opcode = 0;
  fields =
      field "serial" uint false
      ∷ field "surface" object_id false
      ∷ field "hotspot_x" int false
      ∷ field "hotspot_y" int false
      ∷ [];
}

abbrev pub wl_pointer_request_release : Message
wl_pointer_request_release = record { opcode = 1; fields = [] }

abbrev pub wl_pointer_event_enter : Message
wl_pointer_event_enter = record {
  opcode = 0;
  fields =
      field "serial" uint false
      ∷ field "surface" object_id false
      ∷ field "surface_x" fixed false
      ∷ field "surface_y" fixed false
      ∷ [];
}

abbrev pub wl_pointer_event_leave : Message
wl_pointer_event_leave = record {
  opcode = 1;
  fields = field "serial" uint false ∷ field "surface" object_id false ∷ [];
}

abbrev pub wl_pointer_event_motion : Message
wl_pointer_event_motion = record {
  opcode = 2;
  fields =
      field "time" uint false ∷ field "surface_x" fixed false ∷ field "surface_y" fixed false ∷ [];
}

abbrev pub wl_pointer_event_button : Message
wl_pointer_event_button = record {
  opcode = 3;
  fields =
      field "serial" uint false
      ∷ field "time" uint false
      ∷ field "button" uint false
      ∷ field "state" uint false
      ∷ [];
}

abbrev pub wl_pointer_event_axis : Message
wl_pointer_event_axis = record {
  opcode = 4;
  fields = field "time" uint false ∷ field "axis" uint false ∷ field "value" fixed false ∷ [];
}

abbrev pub wl_pointer_event_frame : Message
wl_pointer_event_frame = record { opcode = 5; fields = [] }

abbrev pub wl_pointer_event_axis_source : Message
wl_pointer_event_axis_source = record { opcode = 6; fields = field "axis_source" uint false ∷ [] }

abbrev pub wl_pointer_event_axis_stop : Message
wl_pointer_event_axis_stop = record {
  opcode = 7;
  fields = field "time" uint false ∷ field "axis" uint false ∷ [];
}

abbrev pub wl_pointer_event_axis_discrete : Message
wl_pointer_event_axis_discrete = record {
  opcode = 8;
  fields = field "axis" uint false ∷ field "discrete" int false ∷ [];
}

abbrev pub wl_pointer_event_axis_value120 : Message
wl_pointer_event_axis_value120 = record {
  opcode = 9;
  fields = field "axis" uint false ∷ field "value120" int false ∷ [];
}

abbrev pub wl_pointer_event_axis_relative_direction : Message
wl_pointer_event_axis_relative_direction = record {
  opcode = 10;
  fields = field "axis" uint false ∷ field "direction" uint false ∷ [];
}

abbrev pub wl_pointer_requests : List Message
wl_pointer_requests = wl_pointer_request_set_cursor ∷ wl_pointer_request_release ∷ []

abbrev pub wl_pointer_events : List Message
wl_pointer_events =
    wl_pointer_event_enter ∷ wl_pointer_event_leave ∷ wl_pointer_event_motion
    ∷ wl_pointer_event_button ∷ wl_pointer_event_axis ∷ wl_pointer_event_frame
    ∷ wl_pointer_event_axis_source ∷ wl_pointer_event_axis_stop ∷ wl_pointer_event_axis_discrete
    ∷ wl_pointer_event_axis_value120 ∷ wl_pointer_event_axis_relative_direction ∷ []
