-- ===== src/WhaleLand/Connection/RoundTrip.antt =====
-- connection.rs and packet.rs together: `recv_packet` on what `serialize` produced.
use one_true_pairing.Common.{
  false, ℕ, ◌+◌, ◌-◌, ◌*◌, ◌/◌, ◌%◌, ◌≤◌, ◌<◌, ◌≡◌, sym, ap, ◌∙◌, List, ◌++◌, append_assoc, arith,
  ◌==◌, le→ltb, length, All, length-append, take-append, drop-append, split_eq,
}
use one_true_pairing.Common.Bytes.{
  Bytes, Endian, to_ne_bytes, length-to_ne_bytes, from_ne_bytes-to_ne_bytes,
}
use one_true_pairing.WhaleLand.Error.{IsObjectId, object_id_new, ok}
use one_true_pairing.WhaleLand.Packet.{Packet, RawFd, serialize}
use one_true_pairing.WhaleLand.Socket.{Arrival, recv_with_fds}
use one_true_pairing.WhaleLand.Connection.{Header, parse_header, recv_loop, recv_body, recv_packet}
use one_true_pairing.WhaleLand.Connection.Receive.{
  content, first_fds, IsFlowing, Took, length-Took, Took-trans, recv_with_fds_lem, recv_loop_lem,
  recv_exact_lem,
}

-- What `recv_packet` makes of a packet: the low byte of its opcode, and the file descriptors that
-- came along.
abbrev pub received : Packet → List RawFd → Packet
received p fds = record p { opcode = p.opcode % 256; fds = fds }

abbrev header_of : Packet → Header
header_of p = record {
  object_id = p.object_id;
  packet_size = 8 + length p.payload;
  opcode = p.opcode % 256;
}

recv_packet_step :
    (en : Endian) (fuel : ℕ) (s s1 s2 : List Arrival) (xs ys : Bytes) (fds : List RawFd)
    → recv_with_fds 8 s ≡ (ok (xs, fds), s1)
    → recv_loop fuel 8 xs s1 ≡ (ok (xs ++ ys), s2)
    → recv_packet en fuel s ≡ recv_body en fuel (parse_header en (xs ++ ys)) fds s2
unfolding recv_packet
recv_packet_step en fuel s s1 s2 xs ys fds e1 e2 = rw e1 (rw e2)

module _ (en : Endian) (p : Packet) (o : IsObjectId p.object_id) (c : p.opcode < 65536)
    (b : 8 + length p.payload ≤ 65535) where
  abbrev word : ℕ
  word = (8 + length p.payload) * 65536 + p.opcode

  parse_header_lem :
      parse_header en (to_ne_bytes en p.object_id ++ to_ne_bytes en word) ≡ header_of p
  unfolding parse_header
  parse_header_lem =
      rw
        (
          take-append 4 (to_ne_bytes en p.object_id) (to_ne_bytes en word)
              (length-to_ne_bytes en _),
          drop-append 4 (to_ne_bytes en p.object_id) (to_ne_bytes en word)
              (length-to_ne_bytes en _),
        )
        (rw
          (
            from_ne_bytes-to_ne_bytes en p.object_id o.1,
            from_ne_bytes-to_ne_bytes en word (omega arith),
          )
          λ i. record { object_id = p.object_id; packet_size = size i; opcode = op i })
    where
      size : word / 65536 ≡ 8 + length p.payload
      size = omega arith

      op : word % 256 ≡ p.opcode % 256
      op = omega arith

  recv_body_lem :
      (fuel : ℕ) (s : List Arrival) (fds : List RawFd) (more : Bytes)
      → All IsFlowing s
      → content s ≡ p.payload ++ more
      → length p.payload ≤ fuel
      → (s' : List Arrival) × (recv_body en fuel (header_of p) fds s ≡ (ok (received p fds), s'))
        × All IsFlowing s'
        × (content s' ≡ more)
  unfolding recv_body object_id_new
  recv_body_lem fuel s fds more f e enough =
      let whole = ap length e ∙ length-append p.payload more in
      let (xs, s', e1, t, q) =
        recv_exact_lem fuel (8 + length p.payload - 8) s f (omega arith) (omega arith) in
      let cut = split_eq xs (content s') p.payload more (sym t.content_eq ∙ e) (omega arith) in
      (
        s',
        rw (le→ltb (8 + length p.payload) 8 (omega arith), valid)
            (rw e1 (
              ap
                (λ zs. (
                  ok (record {
                    object_id = p.object_id;
                    opcode = p.opcode % 256;
                    payload = zs;
                    fds = fds;
                  }),
                  s',
                ))
                cut.0)),
        t.flowing,
        cut.1,
      )
    where
      valid : (p.object_id == 0) ≡ false
      valid = ground (arith, o.0)

  abbrev head : Bytes
  head = to_ne_bytes en p.object_id ++ to_ne_bytes en word

  length-head : length head ≡ 8
  length-head = omega (
    arith,
    length-append (to_ne_bytes en p.object_id) (to_ne_bytes en word),
    length-to_ne_bytes en p.object_id,
    length-to_ne_bytes en word,
  )

  -- The rest of `recv_packet`, once the eight bytes of the header are there.
  recv_packet_rest :
      (fuel : ℕ) (s s1 s2 : List Arrival) (xs ys more : Bytes)
      → recv_with_fds 8 s ≡ (ok (xs, first_fds s), s1)
      → recv_loop fuel 8 xs s1 ≡ (ok (xs ++ ys), s2)
      → Took s (xs ++ ys) s2
      → length (xs ++ ys) ≡ 8
      → content s ≡ head ++ (p.payload ++ more)
      → length p.payload ≤ fuel
      → (s' : List Arrival) × (recv_packet en fuel s ≡ (ok (received p (first_fds s)), s'))
        × All IsFlowing s'
        × (content s' ≡ more)
  recv_packet_rest fuel s s1 s2 xs ys more e1 e2 t n e enough =
      let cut =
        split_eq (xs ++ ys) (content s2) head (p.payload ++ more) (sym t.content_eq ∙ e)
          (n ∙ sym length-head) in
      let (s', e3, f', left) = recv_body_lem fuel s2 (first_fds s) more t.flowing cut.1 enough in
      (
        s',
        recv_packet_step en fuel s s1 s2 xs ys (first_fds s) e1 e2
            ∙ rw (cut.0, parse_header_lem) e3,
        f',
        left,
      )

  recv_packet_lem :
      (fuel : ℕ) (s : List Arrival) (more : Bytes)
      → All IsFlowing s
      → content s ≡ head ++ (p.payload ++ more)
      → 8 + length p.payload ≤ fuel
      → (s' : List Arrival) × (recv_packet en fuel s ≡ (ok (received p (first_fds s)), s'))
        × All IsFlowing s'
        × (content s' ≡ more)
  recv_packet_lem fuel s more f e enough =
      let all = ap length e ∙ length-append head (p.payload ++ more) in
      let (xs, s1, e1, t1, q1) =
        recv_with_fds_lem 8 s (omega arith) f (omega (arith, length-head)) in
      let (ys, s2, e2, t2, q2) =
        recv_loop_lem fuel 8 xs s1 t1.flowing q1
          (omega (arith, length-Took s s1 xs t1, length-head)) (omega arith) in
      recv_packet_rest fuel s s1 s2 xs ys more e1 e2 (Took-trans s s1 s2 xs ys t1 t2)
        (length-append xs ys ∙ q2) e (omega arith)

-- Whatever way the bytes of a serialized packet are cut on the stream and whatever follows them,
-- recv_packet returns the packet with the low eight bits of its opcode and with the file
-- descriptors that came with the first bytes, and leaves exactly what follows, provided no read
-- fails or is empty, the object is not zero and a u32, the opcode is a u16, and the fuel is at
-- least the number of bytes.
pub recv_packet-serialize :
    (en : Endian) (p : Packet) (bs : Bytes) (fuel : ℕ) (s : List Arrival) (more : Bytes)
    → IsObjectId p.object_id
    → p.opcode < 65536
    → serialize en p ≡ ok bs
    → All IsFlowing s
    → content s ≡ bs ++ more
    → length bs ≤ fuel
    → (s' : List Arrival) × (recv_packet en fuel s
        ≡ (ok (record p { opcode = p.opcode % 256; fds = first_fds s }), s'))
      × All IsFlowing s'
      × (content s' ≡ more)
unfolding serialize
recv_packet-serialize en p bs fuel s more o c e f whole enough =
    recv_packet_lem en p o c fits fuel s more f
      (whole ∙ ap (λ xs. xs ++ more) (sym bytes) ∙ simp append_assoc)
      (omega (
        arith,
        ap length bytes,
        length-append (to_ne_bytes en p.object_id) (to_ne_bytes en w ++ p.payload),
        length-append (to_ne_bytes en w) p.payload,
        length-to_ne_bytes en p.object_id,
        length-to_ne_bytes en w,
      ))
  where
    w : ℕ
    w = (8 + length p.payload) * 65536 + p.opcode

    fits : 8 + length p.payload ≤ 65535
    fits = ground arith

    bytes : to_ne_bytes en p.object_id ++ (to_ne_bytes en w ++ p.payload) ≡ bs
    bytes = ground arith
