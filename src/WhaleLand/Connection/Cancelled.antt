-- ===== src/WhaleLand/Connection/Cancelled.antt =====
-- connection.rs, `recv_packet`, where `tokio::select!` of main.rs drops it: at the wait for the
-- payload, when another branch is ready. What has been read by then is gone.
use one_true_pairing.Common.{
  ℕ, ◌%◌, ◌<◌, ◌≤◌, ◌≡◌, refl, sym, ap, ◌∙◌, List, ◌++◌, arith, length, length-append,
}
use one_true_pairing.Common.{All, split_eq}
use one_true_pairing.Common.Bytes.{Bytes, Endian}
use mathlib.Core.Path.{fun_ext}
use one_true_pairing.WhaleLand.Error.{IsObjectId, Result, ok, err, panic, hang}
use one_true_pairing.WhaleLand.Exec.{Exec, pure, continue, ◌>>=◌}
use one_true_pairing.WhaleLand.Packet.{Packet, RawFd, serialize}
use one_true_pairing.WhaleLand.Socket.{Arrival, recv_with_fds}
use one_true_pairing.WhaleLand.Connection.{recv_loop, parse_header, recv_body, recv_packet}
use one_true_pairing.WhaleLand.Connection.Receive.{
  content, first_fds, IsFlowing, length-Took, Took-trans, recv_with_fds_lem, recv_loop_lem,
}
use one_true_pairing.WhaleLand.Connection.RoundTrip.{recv_packet-serialize}

-- The part of `recv_packet` before the payload.
unfoldable pub recv_header : ℕ → Exec (List Arrival) (Bytes × List RawFd)
recv_header fuel = do
  (start, fds) ← recv_with_fds 8
  fixed_buf ← recv_loop fuel 8 start
  pure (fixed_buf, fds)

recv_header_lem :
    (fuel : ℕ) (s : List Arrival) (header rest : Bytes)
    → All IsFlowing s
    → content s ≡ header ++ rest
    → length header ≡ 8
    → 8 ≤ fuel
    → (s' : List Arrival) × (recv_header fuel s ≡ (ok (header, first_fds s), s'))
      × All IsFlowing s'
      × (content s' ≡ rest)
unfolding recv_header
recv_header_lem fuel s header rest f e eight enough =
    let all = ap length e ∙ length-append header rest in
    let (xs, s1, e1, t1, q1) = recv_with_fds_lem 8 s (omega arith) f (omega arith) in
    let (ys, s2, e2, t2, q2) =
      recv_loop_lem fuel 8 xs s1 t1.flowing q1 (omega (arith, length-Took s s1 xs t1))
        (omega arith) in
    let t = Took-trans s s1 s2 xs ys t1 t2 in
    let cut =
      split_eq (xs ++ ys) (content s2) header rest (sym t.content_eq ∙ e)
        (length-append xs ys ∙ q2 ∙ sym eight) in
    (s2, rw e1 (rw e2 (ap (λ zs. (ok (zs, first_fds s), s2)) cut.0)), t2.flowing, cut.1)

-- When recv_packet is dropped after the eight bytes of a header, the header is lost, and the next
-- recv_packet takes what follows, the payload, for a packet: where the payload begins with the
-- bytes of a packet, it returns that packet, which was never sent as one, with the low eight bits
-- of its opcode, and leaves what follows, provided no read fails or is empty, the object is not
-- zero and a u32, the opcode is a u16, and the fuel is at least the number of bytes, and 8.
pub recv_packet-cancelled :
    (en : Endian) (q : Packet) (header bs more : Bytes) (fuel : ℕ) (s : List Arrival)
    → IsObjectId q.object_id
    → q.opcode < 65536
    → serialize en q ≡ ok bs
    → All IsFlowing s
    → length header ≡ 8
    → content s ≡ header ++ (bs ++ more)
    → 8 ≤ fuel
    → length bs ≤ fuel
    → (s1 s2 : List Arrival) × (recv_header fuel s ≡ (ok (header, first_fds s), s1))
      × (recv_packet en fuel s1
          ≡ (ok (record q { opcode = q.opcode % 256; fds = first_fds s1 }), s2))
      × (content s2 ≡ more)
recv_packet-cancelled en q header bs more fuel s o c e f eight whole k enough =
    let (s1, dropped, f1, left) = recv_header_lem fuel s header (bs ++ more) f whole eight k in
    let (s2, next, _, left') = recv_packet-serialize en q bs fuel s1 more o c e f1 left enough in
    (s1, s2, dropped, next, left')

continue_assoc :
    {S A B C : Type 0} (r : Result A) (f : A → Exec S B) (g : B → Exec S C) (s : S)
    → continue r (λ a s'. continue (f a s').0 g (f a s').1) s
      ≡ continue (continue r f s).0 g (continue r f s).1
continue_assoc (ok a) f g s = refl
continue_assoc (err e) f g s = refl
continue_assoc panic f g s = refl
continue_assoc hang f g s = refl

-- `recv_packet` is its two parts, one after the other.
recv_packet-recv_header :
    (en : Endian) (fuel : ℕ) (s : List Arrival)
    → recv_packet en fuel s
      ≡ (recv_header fuel >>= λ x. recv_body en fuel (parse_header en x.0) x.1) s
unfolding recv_packet recv_header
recv_packet-recv_header en fuel s =
    ap (λ k. continue (recv_with_fds 8 s).0 k (recv_with_fds 8 s).1)
      (fun_ext λ x. fun_ext λ s1.
        continue_assoc (recv_loop fuel 8 x.0 s1).0 (λ fixed_buf. pure (fixed_buf, x.1))
          (λ y. recv_body en fuel (parse_header en y.0) y.1) (recv_loop fuel 8 x.0 s1).1)
    ∙ continue_assoc (recv_with_fds 8 s).0
        (λ x s1.
          continue (recv_loop fuel 8 x.0 s1).0 (λ fixed_buf. pure (fixed_buf, x.1))
            (recv_loop fuel 8 x.0 s1).1)
        (λ y. recv_body en fuel (parse_header en y.0) y.1) (recv_with_fds 8 s).1
