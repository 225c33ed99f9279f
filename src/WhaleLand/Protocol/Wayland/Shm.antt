-- ===== src/WhaleLand/Protocol/Wayland/Shm.antt =====
-- whale-land/src/protocol/wayland.rs: wl_shm, wl_shm_pool, wl_buffer. A list holds what the event handler
-- or the request proxy of an interface can decode or send.
use one_true_pairing.Common.{true, false, List, [], ◌∷◌}
use one_true_pairing.Wlproto.Model.{file_descriptor, int, new_id, uint}
use one_true_pairing.WhaleLand.Protocol.{Message, field}

abbrev pub wl_shm_request_create_pool : Message
wl_shm_request_create_pool = record {
  opcode = 0;
  fields = field "id" new_id true ∷ field "fd" file_descriptor false ∷ field "size" int false ∷ [];
}

abbrev pub wl_shm_request_release : Message
wl_shm_request_release = record { opcode = 1; fields = [] }

abbrev pub wl_shm_event_format : Message
wl_shm_event_format = record { opcode = 0; fields = field "format" uint false ∷ [] }

abbrev pub wl_shm_requests : List Message
wl_shm_requests = wl_shm_request_create_pool ∷ wl_shm_request_release ∷ []

abbrev pub wl_shm_events : List Message
wl_shm_events = wl_shm_event_format ∷ []

abbrev pub wl_shm_pool_request_create_buffer : Message
wl_shm_pool_request_create_buffer = record {
  opcode = 0;
  fields =
      field "id" new_id true
      ∷ field "offset" int false
      ∷ field "width" int false
      ∷ field "height" int false
      ∷ field "stride" int false
      ∷ field "format" uint false
      ∷ [];
}

abbrev pub wl_shm_pool_request_destroy : Message
wl_shm_pool_request_destroy = record { opcode = 1; fields = [] }

abbrev pub wl_shm_pool_request_resize : Message
wl_shm_pool_request_resize = record { opcode = 2; fields = field "size" int false ∷ [] }

abbrev pub wl_shm_pool_requests : List Message
wl_shm_pool_requests =
    wl_shm_pool_request_create_buffer ∷ wl_shm_pool_request_destroy ∷ wl_shm_pool_request_resize
    ∷ []

abbrev pub wl_buffer_request_destroy : Message
wl_buffer_request_destroy = record { opcode = 0; fields = [] }

abbrev pub wl_buffer_event_release : Message
wl_buffer_event_release = record { opcode = 0; fields = [] }

abbrev pub wl_buffer_requests : List Message
wl_buffer_requests = wl_buffer_request_destroy ∷ []

abbrev pub wl_buffer_events : List Message
wl_buffer_events = wl_buffer_event_release ∷ []
