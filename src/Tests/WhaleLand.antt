-- ===== src/Tests/WhaleLand.antt =====
-- The Wayland library at concrete inputs.
use one_true_pairing.Common.{◌%◌, ◌≡◌, refl, List, [], ◌∷◌, arith, All}
use one_true_pairing.Common.Bytes.{Bytes, little, codes, is_utf8, to_ne_bytes}
use one_true_pairing.WhaleLand.Error.{ok}
use one_true_pairing.WhaleLand.Packet.{Packet, contains_nul, serialize}
use one_true_pairing.WhaleLand.Protocol.{Value, uint, string, try_from_packet, try_into_packet}
use one_true_pairing.WhaleLand.Protocol.Encoding.{IsText, AllFit}
use one_true_pairing.WhaleLand.Protocol.RoundTrip.{try_from_packet-try_into_packet}
use one_true_pairing.WhaleLand.Protocol.Wayland.{wl_registry_event_global}
use one_true_pairing.Wlproto.Output.{tokenize_incoming_arg_type}
use one_true_pairing.WhaleLand.Socket.{Arrival, would_block, arrived}
use one_true_pairing.WhaleLand.Connection.{recv_packet}
use one_true_pairing.WhaleLand.Connection.Receive.{content, first_fds, IsFlowing}
use one_true_pairing.WhaleLand.Connection.RoundTrip.{recv_packet-serialize}

seat-IsText : IsText (codes "wl_seat")
unfolding contains_nul is_utf8
seat-IsText = record { short = omega arith; no_nul = refl; utf8 = refl }

abbrev global_values : List Value
global_values = uint 7 ∷ string (codes "wl_seat") ∷ uint 9 ∷ []

global_values-AllFit : AllFit wl_registry_event_global.fields global_values
unfolding tokenize_incoming_arg_type
global_values-AllFit = (omega arith, (seat-IsText, (omega arith, tt)))

try_from_packet-try_into_packet_example :
    (p : Packet) × (try_into_packet little 0 wl_registry_event_global.fields global_values 2 ≡ ok p)
    × (p.object_id ≡ 2)
    × (p.opcode ≡ 0)
    × (try_from_packet little wl_registry_event_global.fields p ≡ ok global_values)
try_from_packet-try_into_packet_example =
    try_from_packet-try_into_packet little 0 wl_registry_event_global.fields global_values 2
      global_values-AllFit

abbrev ping : Packet
ping = record { object_id = 3; opcode = 258; payload = 5 ∷ 0 ∷ 0 ∷ 0 ∷ []; fds = 9 ∷ [] }

abbrev ping_bytes : Bytes
ping_bytes = 3 ∷ 0 ∷ 0 ∷ 0 ∷ 2 ∷ 1 ∷ 12 ∷ 0 ∷ 5 ∷ 0 ∷ 0 ∷ 0 ∷ []

serialize-ping : serialize little ping ≡ ok ping_bytes
unfolding serialize to_ne_bytes
serialize-ping = refl

abbrev chunks : List Arrival
chunks =
    would_block
    ∷ arrived (3 ∷ 0 ∷ 0 ∷ []) (9 ∷ [])
    ∷ arrived (0 ∷ 2 ∷ 1 ∷ 12 ∷ 0 ∷ 5 ∷ []) []
    ∷ would_block
    ∷ arrived (0 ∷ 0 ∷ 0 ∷ 8 ∷ []) []
    ∷ []

chunks-IsFlowing : All IsFlowing chunks
chunks-IsFlowing = ground arith

recv_packet-serialize_example :
    (s' : List Arrival) × (recv_packet little 12 chunks
      ≡ (ok (record ping { opcode = 258 % 256; fds = first_fds chunks }), s'))
    × All IsFlowing s'
    × (content s' ≡ 8 ∷ [])
recv_packet-serialize_example =
    recv_packet-serialize little ping ping_bytes 12 chunks (8 ∷ []) (omega arith) (omega arith)
      serialize-ping chunks-IsFlowing refl (omega arith)
