-- ===== src/WhaleLand/Connection/Transport.antt =====
-- connection.rs: a packet that one side sends, as the other side receives it.
use one_true_pairing.Common.{
  ℕ, ◌%◌, ◌<◌, ◌≤◌, ◌≡◌, sym, ap, ◌∙◌, List, [], ◌++◌, append-nil, arith, length, All,
}
use one_true_pairing.Common.Bytes.{Bytes, Endian}
use one_true_pairing.WhaleLand.Error.{IsObjectId, ok}
use one_true_pairing.WhaleLand.Packet.{Packet, RawFd, serialize}
use one_true_pairing.WhaleLand.Socket.{Arrival, Outgoing}
use one_true_pairing.WhaleLand.Connection.{send_packet, recv_packet}
use one_true_pairing.WhaleLand.Connection.Receive.{content, first_fds, IsFlowing}
use one_true_pairing.WhaleLand.Connection.RoundTrip.{recv_packet-serialize}
use one_true_pairing.WhaleLand.Connection.Send.{
  IsAccepting, acceptances, stream, first_sent_fds, send_packet-serialize,
}

as_sent :
    (p : Packet) (fds : List RawFd)
    → p.opcode < 256
    → fds ≡ p.fds
    → record p { opcode = p.opcode % 256; fds = fds } ≡ p
as_sent p fds o e =
    let q : p.opcode % 256 ≡ p.opcode = omega arith in λ i. record p { opcode = q i; fds = e i }

stream-sent :
    (en : Endian) (p : Packet) (bs : Bytes) (fuel : ℕ) (o o' : Outgoing)
    → serialize en p ≡ ok bs
    → All IsAccepting o.answers
    → length bs ≤ fuel
    → length bs < acceptances o.answers
    → o.written ≡ []
    → send_packet en fuel p o ≡ (ok tt, o')
    → (stream o'.written ≡ bs) × (first_sent_fds o'.written ≡ p.fds)
stream-sent en p bs fuel o o' e h f a w q =
    let (o'', r, t) = send_packet-serialize en p bs fuel o e h f a in
    let same : o' ≡ o'' = ap (λ x. x.1) (sym q ∙ r) in
    (
      ap (λ x. stream x.written) same ∙ t.bytes ∙ ap (λ x. stream x ++ bs) w,
      ap (λ x. first_sent_fds x.written) same ∙ t.first w,
    )

-- A packet whose opcode is below 256, sent on a fresh connection and received on the other side,
-- is the same packet there, with the same file descriptors, and nothing is left over, however the
-- socket cuts the bytes at either end, provided no read or write fails or is empty, the socket
-- takes bytes more often than there are bytes, the object is not zero and a u32, the bytes that
-- arrive are those that were written and the file descriptors of the first write come with the
-- first of them, and the fuel is at least the number of bytes.
pub recv_packet-send_packet :
    (en : Endian) (p : Packet) (bs : Bytes) (fuel : ℕ) (o o' : Outgoing) (s : List Arrival)
    → IsObjectId p.object_id
    → p.opcode < 256
    → serialize en p ≡ ok bs
    → length bs ≤ fuel
    → All IsAccepting o.answers
    → length bs < acceptances o.answers
    → o.written ≡ []
    → send_packet en fuel p o ≡ (ok tt, o')
    → All IsFlowing s
    → content s ≡ stream o'.written
    → first_fds s ≡ first_sent_fds o'.written
    → (s' : List Arrival) × (recv_packet en fuel s ≡ (ok p, s')) × (content s' ≡ [])
recv_packet-send_packet en p bs fuel o o' s i c e f h a w q flow same fds =
    let (sent, sent_fds) = stream-sent en p bs fuel o o' e h f a w q in
    let (s', r, flow', left) =
      recv_packet-serialize en p bs fuel s [] i (omega arith) e flow
        (same ∙ sent ∙ sym (append-nil bs)) f in
    (s', r ∙ ap (λ x. (ok x, s')) (as_sent p (first_fds s) c (fds ∙ sent_fds)), left)
