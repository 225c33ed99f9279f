-- ===== src/WhaleLand/Protocol/Wayland/Data.antt =====
-- whale-land/src/protocol/wayland.rs: wl_data_offer, wl_data_source, wl_data_device, wl_data_device_manager. A list holds what the event handler
-- or the request proxy of an interface can decode or send.
use one_true_pairing.Common.{true, false, List, [], ◌∷◌}
use one_true_pairing.Wlproto.Model.{file_descriptor, fixed, new_id, object_id, string, uint}
use one_true_pairing.WhaleLand.Protocol.{Message, field}

abbrev pub wl_data_offer_request_accept : Message
wl_data_offer_request_accept = record {
  opcode = 0;
  fields = field "serial" uint false ∷ field "mime_type" string false ∷ [];
}

abbrev pub wl_data_offer_request_receive : Message
wl_data_offer_request_receive = record {
  opcode = 1;
  fields = field "mime_type" string false ∷ field "fd" file_descriptor false ∷ [];
}

abbrev pub wl_data_offer_request_destroy : Message
wl_data_offer_request_destroy = record { opcode = 2; fields = [] }

abbrev pub wl_data_offer_request_finish : Message
wl_data_offer_request_finish = record { opcode = 3; fields = [] }

abbrev pub wl_data_offer_request_set_actions : Message
wl_data_offer_request_set_actions = record {
  opcode = 4;
  fields = field "dnd_actions" uint false ∷ field "preferred_action" uint false ∷ [];
}

abbrev pub wl_data_offer_event_offer : Message
wl_data_offer_event_offer = record { opcode = 0; fields = field "mime_type" string false ∷ [] }

abbrev pub wl_data_offer_event_source_actions : Message
wl_data_offer_event_source_actions = record {
  opcode = 1;
  fields = field "source_actions" uint false ∷ [];
}

abbrev pub wl_data_offer_event_action : Message
wl_data_offer_event_action = record { opcode = 2; fields = field "dnd_action" uint false ∷ [] }

abbrev pub wl_data_offer_requests : List Message
wl_data_offer_requests =
    wl_data_offer_request_accept ∷ wl_data_offer_request_receive ∷ wl_data_offer_request_destroy
    ∷ wl_data_offer_request_finish ∷ wl_data_offer_request_set_actions ∷ []

abbrev pub wl_data_offer_events : List Message
wl_data_offer_events =
    wl_data_offer_event_offer ∷ wl_data_offer_event_source_actions ∷ wl_data_offer_event_action ∷ []

abbrev pub wl_data_source_request_offer : Message
wl_data_source_request_offer = record { opcode = 0; fields = field "mime_type" string false ∷ [] }

abbrev pub wl_data_source_request_destroy : Message
wl_data_source_request_destroy = record { opcode = 1; fields = [] }

abbrev pub wl_data_source_request_set_actions : Message
wl_data_source_request_set_actions = record {
  opcode = 2;
  fields = field "dnd_actions" uint false ∷ [];
}

abbrev pub wl_data_source_event_target : Message
wl_data_source_event_target = record { opcode = 0; fields = field "mime_type" string false ∷ [] }

abbrev pub wl_data_source_event_send : Message
wl_data_source_event_send = record {
  opcode = 1;
  fields = field "mime_type" string false ∷ field "fd" file_descriptor false ∷ [];
}

abbrev pub wl_data_source_event_cancelled : Message
wl_data_source_event_cancelled = record { opcode = 2; fields = [] }

abbrev pub wl_data_source_event_dnd_drop_performed : Message
wl_data_source_event_dnd_drop_performed = record { opcode = 3; fields = [] }

abbrev pub wl_data_source_event_dnd_finished : Message
wl_data_source_event_dnd_finished = record { opcode = 4; fields = [] }

abbrev pub wl_data_source_event_action : Message
wl_data_source_event_action = record { opcode = 5; fields = field "dnd_action" uint false ∷ [] }

abbrev pub wl_data_source_requests : List Message
wl_data_source_requests =
    wl_data_source_request_offer ∷ wl_data_source_request_destroy
    ∷ wl_data_source_request_set_actions ∷ []

abbrev pub wl_data_source_events : List Message
wl_data_source_events =
    wl_data_source_event_target ∷ wl_data_source_event_send ∷ wl_data_source_event_cancelled
    ∷ wl_data_source_event_dnd_drop_performed ∷ wl_data_source_event_dnd_finished
    ∷ wl_data_source_event_action ∷ []

abbrev pub wl_data_device_request_start_drag : Message
wl_data_device_request_start_drag = record {
  opcode = 0;
  fields =
      field "source" object_id false
      ∷ field "origin" object_id false
      ∷ field "icon" object_id false
      ∷ field "serial" uint false
      ∷ [];
}

abbrev pub wl_data_device_request_set_selection : Message
wl_data_device_request_set_selection = record {
  opcode = 1;
  fields = field "source" object_id false ∷ field "serial" uint false ∷ [];
}

abbrev pub wl_data_device_request_release : Message
wl_data_device_request_release = record { opcode = 2; fields = [] }

abbrev pub wl_data_device_event_data_offer : Message
wl_data_device_event_data_offer = record { opcode = 0; fields = field "id" new_id true ∷ [] }

abbrev pub wl_data_device_event_enter : Message
wl_data_device_event_enter = record {
  opcode = 1;
  fields =
      field "serial" uint false
      ∷ field "surface" object_id false
      ∷ field "x" fixed false
      ∷ field "y" fixed false
      ∷ field "id" object_id false
      ∷ [];
}

abbrev pub wl_data_device_event_leave : Message
wl_data_device_event_leave = record { opcode = 2; fields = [] }

abbrev pub wl_data_device_event_motion : Message
wl_data_device_event_motion = record {
  opcode = 3;
  fields = field "time" uint false ∷ field "x" fixed false ∷ field "y" fixed false ∷ [];
}

abbrev pub wl_data_device_event_drop : Message
wl_data_device_event_drop = record { opcode = 4; fields = [] }

abbrev pub wl_data_device_event_selection : Message
wl_data_device_event_selection = record { opcode = 5; fields = field "id" object_id false ∷ [] }

abbrev pub wl_data_device_requests : List Message
wl_data_device_requests =
    wl_data_device_request_start_drag ∷ wl_data_device_request_set_selection
    ∷ wl_data_device_request_release ∷ []

abbrev pub wl_data_device_events : List Message
wl_data_device_events =
    wl_data_device_event_data_offer ∷ wl_data_device_event_enter ∷ wl_data_device_event_leave
    ∷ wl_data_device_event_motion ∷ wl_data_device_event_drop ∷ wl_data_device_event_selection ∷ []

abbrev pub wl_data_device_manager_request_create_data_source : Message
wl_data_device_manager_request_create_data_source = record {
  opcode = 0;
  fields = field "id" new_id true ∷ [];
}

abbrev pub wl_data_device_manager_request_get_data_device : Message
wl_data_device_manager_request_get_data_device = record {
  opcode = 1;
  fields = field "id" new_id true ∷ field "seat" object_id false ∷ [];
}

abbrev pub wl_data_device_manager_requests : List Message
wl_data_device_manager_requests =
    wl_data_device_manager_request_create_data_source
    ∷ wl_data_device_manager_request_get_data_device ∷ []
