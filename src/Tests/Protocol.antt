-- ===== src/Tests/Protocol.antt =====
-- The generated event handlers and proxy functions at concrete inputs.
use one_true_pairing.Common.{◌≡◌, refl, List, [], ◌∷◌, ◌++◌, arith, All}
use one_true_pairing.Common.Bytes.{Bytes, little, to_ne_bytes}
use one_true_pairing.WhaleLand.Error.{ok}
use one_true_pairing.WhaleLand.Packet.{Packet, serialize, push_uint, push_new_id_known_interface}
use one_true_pairing.WhaleLand.Socket.{
  would_block, accepts, Outgoing, Arrival, arrived, send, send_on, send_with_fds,
}
use one_true_pairing.WhaleLand.Connection.{send_loop, send_packet, recv_packet}
use one_true_pairing.WhaleLand.Connection.Send.{IsAccepting}
use one_true_pairing.WhaleLand.Connection.Receive.{IsFlowing}
use one_true_pairing.WhaleLand.Protocol.{
  Value, uint, new_id, handled, handle_event, field_writes, call_write,
}
use one_true_pairing.Wlproto.Output.{tokenize_incoming_arg_type, tokenize_arg_type_write_func}
use one_true_pairing.WhaleLand.Protocol.Encoding.{AllFit}
use one_true_pairing.WhaleLand.Protocol.RoundTrip.{wire}
use one_true_pairing.WhaleLand.Protocol.Wayland.{
  wl_display_requests, wl_display_request_sync, wl_callback_events, wl_callback_event_done,
}
use one_true_pairing.WhaleLand.Protocol.Events.{handle_event-wire}
use one_true_pairing.WhaleLand.Protocol.Interfaces.{
  IsNumbered, event_interfaces, request_interfaces,
}
use one_true_pairing.WhaleLand.Protocol.Proxy.{send_request}
use one_true_pairing.WhaleLand.Protocol.Proxy.Delivery.{handle_event-send_request}

done_values-AllFit : AllFit wl_callback_event_done.fields (uint 77 ∷ [])
unfolding tokenize_incoming_arg_type
done_values-AllFit = (omega arith, tt)

done_event_handled :
    handle_event little wl_callback_events (wire little 0 (uint 77 ∷ []) 3)
    ≡ ok (handled 0 (uint 77 ∷ []))
done_event_handled =
    handle_event-wire little wl_callback_events 0 wl_callback_event_done (uint 77 ∷ []) 3
      (ground arith) refl done_values-AllFit

abbrev sync_values : List Value
sync_values = new_id 3 ∷ []

sync_values-AllFit : AllFit wl_display_request_sync.fields sync_values
unfolding tokenize_incoming_arg_type
sync_values-AllFit = ((omega arith, omega arith), tt)

abbrev request_bytes : Bytes
request_bytes = 1 ∷ 0 ∷ 0 ∷ 0 ∷ 0 ∷ 0 ∷ 12 ∷ 0 ∷ 3 ∷ 0 ∷ 0 ∷ 0 ∷ []

serialize-request : serialize little (wire little 0 sync_values 1) ≡ ok request_bytes
unfolding serialize to_ne_bytes
serialize-request = refl

-- A socket that takes a byte at a time, and once five.
abbrev waiting : Outgoing
waiting = record {
  answers =
      would_block
      ∷ accepts 1
      ∷ accepts 1
      ∷ accepts 5
      ∷ accepts 1
      ∷ accepts 1
      ∷ accepts 1
      ∷ accepts 1
      ∷ accepts 1
      ∷ would_block
      ∷ accepts 1
      ∷ accepts 1
      ∷ accepts 1
      ∷ accepts 1
      ∷ accepts 1
      ∷ [];
  written = [];
}

waiting-IsAccepting : All IsAccepting waiting.answers
waiting-IsAccepting = ground arith

abbrev after_request : Outgoing
after_request = record {
  answers = would_block ∷ accepts 1 ∷ accepts 1 ∷ accepts 1 ∷ accepts 1 ∷ accepts 1 ∷ [];
  written =
      (0 ∷ [], [])
      ∷ (0 ∷ [], [])
      ∷ (0 ∷ [], [])
      ∷ (3 ∷ [], [])
      ∷ (0 ∷ [], [])
      ∷ (0 ∷ 0 ∷ 0 ∷ 0 ∷ 12 ∷ [], [])
      ∷ (0 ∷ [], [])
      ∷ (1 ∷ [], [])
      ∷ [];
}

send-request :
    send_request little 12 wl_display_request_sync sync_values 1 waiting ≡ (ok tt, after_request)
unfolding send_request field_writes call_write push_new_id_known_interface push_uint send_packet
    send_loop send_with_fds send send_on serialize to_ne_bytes tokenize_arg_type_write_func
send-request = refl

abbrev request_arriving : List Arrival
request_arriving =
    arrived (1 ∷ 0 ∷ []) [] ∷ arrived (0 ∷ 0 ∷ 0 ∷ 0 ∷ 12 ∷ 0 ∷ 3 ∷ 0 ∷ 0 ∷ 0 ∷ []) [] ∷ []

request_arriving-IsFlowing : All IsFlowing request_arriving
request_arriving-IsFlowing = ground arith

handle_event-send_request_example :
    (p : Packet) × (s' : List Arrival) × (recv_packet little 12 request_arriving ≡ (ok p, s'))
    × (p.object_id ≡ 1)
    × (handle_event little wl_display_requests p ≡ ok (handled 0 sync_values))
handle_event-send_request_example =
    handle_event-send_request little wl_display_requests 0 wl_display_request_sync sync_values 1
      request_bytes 12 waiting after_request request_arriving (ground arith) refl sync_values-AllFit
      (omega arith, omega arith) (omega arith) serialize-request (omega arith) waiting-IsAccepting
      (omega arith) refl send-request request_arriving-IsFlowing refl refl

interfaces-IsNumbered : All (IsNumbered 0) (event_interfaces ++ request_interfaces)
interfaces-IsNumbered = ground arith
