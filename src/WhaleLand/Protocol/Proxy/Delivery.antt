-- ===== src/WhaleLand/Protocol/Proxy/Delivery.antt =====
-- From a request proxy, over the sockets, to the handler on the other side.
use one_true_pairing.Common.{
  ℕ, ◌<◌, ◌≤◌, ◌≡◌, refl, sym, ap, ◌∙◌, some, List, [], length, get_elem?, All,
}
use one_true_pairing.Common.Bytes.{Bytes, Endian}
use one_true_pairing.WhaleLand.Error.{ObjectId, IsObjectId, ok}
use one_true_pairing.WhaleLand.Packet.{Packet, new, serialize}
use one_true_pairing.WhaleLand.Socket.{Arrival, Outgoing}
use one_true_pairing.WhaleLand.Connection.{send_packet, recv_packet}
use one_true_pairing.WhaleLand.Connection.Receive.{content, first_fds, IsFlowing}
use one_true_pairing.WhaleLand.Connection.Send.{IsAccepting, acceptances, stream, first_sent_fds}
use one_true_pairing.WhaleLand.Connection.Transport.{recv_packet-send_packet}
use one_true_pairing.WhaleLand.Protocol.{Value, Message, handled, handle_event}
use one_true_pairing.WhaleLand.Protocol.Encoding.{AllFit, field_writes_lem}
use one_true_pairing.WhaleLand.Protocol.RoundTrip.{wire}
use one_true_pairing.WhaleLand.Protocol.Interfaces.{IsNumbered}
use one_true_pairing.WhaleLand.Protocol.Events.{handle_event-wire, opcode-get_elem?}
use one_true_pairing.WhaleLand.Protocol.Proxy.{send_request}

-- A proxy sends the packet that the arguments encode to.
send_request_lem :
    (en : Endian) (fuel : ℕ) (m : Message) (vs : List Value) (object_id : ObjectId) (o : Outgoing)
    → AllFit m.fields vs
    → send_request en fuel m vs object_id o ≡ send_packet en fuel (wire en m.opcode vs object_id) o
unfolding send_request
send_request_lem en fuel m vs object_id o f =
    rw (field_writes_lem en m.fields vs (new object_id m.opcode) f) refl

-- What a generated proxy function sends for the i-th message of an interface, over a fresh
-- connection, arrives, however the sockets cut it, as a packet of that object that the generated
-- dispatch hands to the i-th handler with the same arguments, provided the messages are numbered
-- in order, the arguments fit, the object is not zero and a u32, i is below 256, no read or write
-- fails or is empty, the socket takes bytes often enough, the bytes that arrive are those that
-- were written and the file descriptors of the first write come with the first of them, and the
-- fuel is at least the number of bytes.
pub handle_event-send_request :
    (en : Endian) (ms : List Message) (i : ℕ) (m : Message) (vs : List Value) (object_id : ObjectId)
    (bs : Bytes) (fuel : ℕ) (o o' : Outgoing) (s : List Arrival)
    → IsNumbered 0 ms
    → get_elem? ms i ≡ some m
    → AllFit m.fields vs
    → IsObjectId object_id
    → i < 256
    → serialize en (wire en i vs object_id) ≡ ok bs
    → length bs ≤ fuel
    → All IsAccepting o.answers
    → length bs < acceptances o.answers
    → o.written ≡ []
    → send_request en fuel m vs object_id o ≡ (ok tt, o')
    → All IsFlowing s
    → content s ≡ stream o'.written
    → first_fds s ≡ first_sent_fds o'.written
    → (p : Packet) × (s' : List Arrival) × (recv_packet en fuel s ≡ (ok p, s'))
      × (p.object_id ≡ object_id)
      × (handle_event en ms p ≡ ok (handled i vs))
handle_event-send_request en ms i m vs object_id bs fuel o o' s n g f d small e l a t w q flow same
      fds =
    let k : m.opcode ≡ i = opcode-get_elem? ms i m n g in
    let sends : send_packet en fuel (wire en i vs object_id) o ≡ (ok tt, o') =
      ap (λ x. send_packet en fuel (wire en x vs object_id) o) (sym k)
      ∙ sym (send_request_lem en fuel m vs object_id o f)
      ∙ q in
    let (s', r, left) =
      recv_packet-send_packet en (wire en i vs object_id) bs fuel o o' s d small e l a t w sends
        flow same fds in
    (wire en i vs object_id, s', r, refl, handle_event-wire en ms i m vs object_id n g f)
