-- ===== src/WhaleLand/Protocol/Wayland/Output.antt =====
-- whale-land/src/protocol/wayland.rs: wl_output. A list holds what the event handler
-- or the request proxy of an interface can decode or send.
use one_true_pairing.Common.{false, List, [], ◌∷◌}
use one_true_pairing.Wlproto.Model.{int, string, uint}
use one_true_pairing.WhaleLand.Protocol.{Message, field}

abbrev pub wl_output_request_release : Message
wl_output_request_release = record { opcode = 0; fields = [] }

abbrev pub wl_output_event_geometry : Message
wl_output_event_geometry = record {
  opcode = 0;
  fields =
      field "x" int false
      ∷ field "y" int false
      ∷ field "physical_width" int false
      ∷ field "physical_height" int false
      ∷ field "subpixel" int false
      ∷ field "make" string false
      ∷ field "model" string false
      ∷ field "transform" int false
      ∷ [];
}

abbrev pub wl_output_event_mode : Message
wl_output_event_mode = record {
  opcode = 1;
  fields =
      field "flags" uint false
      ∷ field "width" int false
      ∷ field "height" int false
      ∷ field "refresh" int false
      ∷ [];
}

abbrev pub wl_output_event_done : Message
wl_output_event_done = record { opcode = 2; fields = [] }

abbrev pub wl_output_event_scale : Message
wl_output_event_scale = record { opcode = 3; fields = field "factor" int false ∷ [] }

abbrev pub wl_output_event_name : Message
wl_output_event_name = record { opcode = 4; fields = field "name" string false ∷ [] }

abbrev pub wl_output_event_description : Message
wl_output_event_description = record { opcode = 5; fields = field "description" string false ∷ [] }

abbrev pub wl_output_requests : List Message
wl_output_requests = wl_output_request_release ∷ []

abbrev pub wl_output_events : List Message
wl_output_events =
    wl_output_event_geometry ∷ wl_output_event_mode ∷ wl_output_event_done ∷ wl_output_event_scale
    ∷ wl_output_event_name ∷ wl_output_event_description ∷ []
