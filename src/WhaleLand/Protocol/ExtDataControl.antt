-- ===== src/WhaleLand/Protocol/ExtDataControl.antt =====
-- whale-land/src/protocol/ext_data_control_v1.rs: every `_args` structure, under its name without
-- `ext_data_control_` and the versions.
use one_true_pairing.Common.{true, false, List, [], ◌∷◌}
use one_true_pairing.Wlproto.Model.{string, object_id, new_id, file_descriptor}
use one_true_pairing.WhaleLand.Protocol.{Message, field}

abbrev pub manager_request_create_data_source : Message
manager_request_create_data_source = record { opcode = 0; fields = field "id" new_id true ∷ [] }

abbrev pub manager_request_get_data_device : Message
manager_request_get_data_device = record {
  opcode = 1;
  fields = field "id" new_id true ∷ field "seat" object_id false ∷ [];
}

abbrev pub manager_request_destroy : Message
manager_request_destroy = record { opcode = 2; fields = [] }

abbrev pub device_request_set_selection : Message
device_request_set_selection = record { opcode = 0; fields = field "source" object_id false ∷ [] }

abbrev pub device_request_destroy : Message
device_request_destroy = record { opcode = 1; fields = [] }

abbrev pub device_request_set_primary_selection : Message
device_request_set_primary_selection = record {
  opcode = 2;
  fields = field "source" object_id false ∷ [];
}

abbrev pub device_event_data_offer : Message
device_event_data_offer = record { opcode = 0; fields = field "id" new_id true ∷ [] }

abbrev pub device_event_selection : Message
device_event_selection = record { opcode = 1; fields = field "id" object_id false ∷ [] }

abbrev pub device_event_finished : Message
device_event_finished = record { opcode = 2; fields = [] }

abbrev pub device_event_primary_selection : Message
device_event_primary_selection = record { opcode = 3; fields = field "id" object_id false ∷ [] }

abbrev pub source_request_offer : Message
source_request_offer = record { opcode = 0; fields = field "mime_type" string false ∷ [] }

abbrev pub source_request_destroy : Message
source_request_destroy = record { opcode = 1; fields = [] }

abbrev pub source_event_send : Message
source_event_send = record {
  opcode = 0;
  fields = field "mime_type" string false ∷ field "fd" file_descriptor false ∷ [];
}

abbrev pub source_event_cancelled : Message
source_event_cancelled = record { opcode = 1; fields = [] }

abbrev pub offer_request_receive : Message
offer_request_receive = record {
  opcode = 0;
  fields = field "mime_type" string false ∷ field "fd" file_descriptor false ∷ [];
}

abbrev pub offer_request_destroy : Message
offer_request_destroy = record { opcode = 1; fields = [] }

abbrev pub offer_event_offer : Message
offer_event_offer = record { opcode = 0; fields = field "mime_type" string false ∷ [] }

-- The events that the generated `handle_event` functions match on, and the requests that the
-- request proxies send.
abbrev pub manager_requests : List Message
manager_requests =
    manager_request_create_data_source ∷ manager_request_get_data_device ∷ manager_request_destroy
    ∷ []

abbrev pub device_requests : List Message
device_requests =
    device_request_set_selection ∷ device_request_destroy ∷ device_request_set_primary_selection
    ∷ []

abbrev pub device_events : List Message
device_events =
    device_event_data_offer ∷ device_event_selection ∷ device_event_finished
    ∷ device_event_primary_selection ∷ []

abbrev pub source_requests : List Message
source_requests = source_request_offer ∷ source_request_destroy ∷ []

abbrev pub source_events : List Message
source_events = source_event_send ∷ source_event_cancelled ∷ []

abbrev pub offer_requests : List Message
offer_requests = offer_request_receive ∷ offer_request_destroy ∷ []

abbrev pub offer_events : List Message
offer_events = offer_event_offer ∷ []
