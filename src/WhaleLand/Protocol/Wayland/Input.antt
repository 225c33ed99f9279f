-- ===== src/WhaleLand/Protocol/Wayland/Input.antt =====
-- whale-land/src/protocol/wayland.rs: wl_keyboard and wl_touch. A list holds what the
-- event handler or the request proxy of an interface can decode or send.
use one_true_pairing.Common.{false, List, [], ◌∷◌}
use one_true_pairing.Wlproto.Model.{array, file_descriptor, fixed, int, object_id, uint}
use one_true_pairing.WhaleLand.Protocol.{Message, field}

abbrev pub wl_keyboard_request_release : Message
wl_keyboard_request_release = record { opcode = 0; fields = [] }

abbrev pub wl_keyboard_event_keymap : Message
wl_keyboard_event_keymap = record {
  opcode = 0;
  fields =
      field "format" uint false ∷ field "fd" file_descriptor false ∷ field "size" uint false ∷ [];
}

abbrev pub wl_keyboard_event_enter : Message
wl_keyboard_event_enter = record {
  opcode = 1;
  fields =
      field "serial" uint false ∷ field "surface" object_id false ∷ field "keys" array false ∷ [];
}

abbrev pub wl_keyboard_event_leave : Message
wl_keyboard_event_leave = record {
  opcode = 2;
  fields = field "serial" uint false ∷ field "surface" object_id false ∷ [];
}

abbrev pub wl_keyboard_event_key : Message
wl_keyboard_event_key = record {
  opcode = 3;
  fields =
      field "serial" uint false
      ∷ field "time" uint false
      ∷ field "key" uint false
      ∷ field "state" uint false
      ∷ [];
}

abbrev pub wl_keyboard_event_modifiers : Message
wl_keyboard_event_modifiers = record {
  opcode = 4;
  fields =
      field "serial" uint false
      ∷ field "mods_depressed" uint false
      ∷ field "mods_latched" uint false
      ∷ field "mods_locked" uint false
      ∷ field "group" uint false
      ∷ [];
}

abbrev pub wl_keyboard_event_repeat_info : Message
wl_keyboard_event_repeat_info = record {
  opcode = 5;
  fields = field "rate" int false ∷ field "delay" int false ∷ [];
}

abbrev pub wl_keyboard_requests : List Message
wl_keyboard_requests = wl_keyboard_request_release ∷ []

abbrev pub wl_keyboard_events : List Message
wl_keyboard_events =
    wl_keyboard_event_keymap ∷ wl_keyboard_event_enter ∷ wl_keyboard_event_leave
    ∷ wl_keyboard_event_key ∷ wl_keyboard_event_modifiers ∷ wl_keyboard_event_repeat_info ∷ []

abbrev pub wl_touch_request_release : Message
wl_touch_request_release = record { opcode = 0; fields = [] }

abbrev pub wl_touch_event_down : Message
wl_touch_event_down = record {
  opcode = 0;
  fields =
      field "serial" uint false
      ∷ field "time" uint false
      ∷ field "surface" object_id false
      ∷ field "id" int false
      ∷ field "x" fixed false
      ∷ field "y" fixed false
      ∷ [];
}

abbrev pub wl_touch_event_up : Message
wl_touch_event_up = record {
  opcode = 1;
  fields = field "serial" uint false ∷ field "time" uint false ∷ field "id" int false ∷ [];
}

abbrev pub wl_touch_event_motion : Message
wl_touch_event_motion = record {
  opcode = 2;
  fields =
      field "time" uint false
      ∷ field "id" int false
      ∷ field "x" fixed false
      ∷ field "y" fixed false
      ∷ [];
}

abbrev pub wl_touch_event_frame : Message
wl_touch_event_frame = record { opcode = 3; fields = [] }

abbrev pub wl_touch_event_cancel : Message
wl_touch_event_cancel = record { opcode = 4; fields = [] }

abbrev pub wl_touch_event_shape : Message
wl_touch_event_shape = record {
  opcode = 5;
  fields = field "id" int false ∷ field "major" fixed false ∷ field "minor" fixed false ∷ [];
}

abbrev pub wl_touch_event_orientation : Message
wl_touch_event_orientation = record {
  opcode = 6;
  fields = field "id" int false ∷ field "orientation" fixed false ∷ [];
}

abbrev pub wl_touch_requests : List Message
wl_touch_requests = wl_touch_request_release ∷ []

abbrev pub wl_touch_events : List Message
wl_touch_events =
    wl_touch_event_down ∷ wl_touch_event_up ∷ wl_touch_event_motion ∷ wl_touch_event_frame
    ∷ wl_touch_event_cancel ∷ wl_touch_event_shape ∷ wl_touch_event_orientation ∷ []
