-- ===== src/Clipboard/Requests.antt =====
-- main.rs: what a request to the compositor comes to, on a socket that takes packets.
use one_true_pairing.Common.{
  ℕ, ◌+◌, ◌*◌, ◌%◌, ◌^◌, ◌≤◌, ◌≡◌, refl, true, List, [], ◌∷◌, ◌++◌, arith, le→ltb, length,
  length-append, replicate, length-replicate, append_assoc,
}
use one_true_pairing.Common.Bytes.{Bytes, Endian, to_ne_bytes, length-to_ne_bytes}
use one_true_pairing.WhaleLand.Error.{ObjectId, IsObjectId, object_id_new, ok}
use one_true_pairing.WhaleLand.Packet.{Packet, serialize, realign_count}
use one_true_pairing.WhaleLand.Connection.{next_object_id_loop}
use one_true_pairing.WhaleLand.Protocol.{Value, Message}
use one_true_pairing.WhaleLand.Protocol.Encoding.{AllFit, encode_text, encode_all}
use one_true_pairing.WhaleLand.Protocol.RoundTrip.{wire, try_into_packet_lem}
use one_true_pairing.Clipboard.State.{
  Client, get_and_increment_next_object_id, send_packet, request,
}

-- The first ID is taken, and the counter moves on.
pub next_id_lem :
    (c : Client)
    → IsObjectId c.next_object_id
    → get_and_increment_next_object_id c
      ≡ (ok c.next_object_id, record c { next_object_id = (c.next_object_id + 1) % 2 ^ 32 })
unfolding get_and_increment_next_object_id next_object_id_loop object_id_new
next_id_lem c h = ground (arith, h.0)

-- The client after one more packet.
abbrev pub sends : Client → List Packet → Client
sends c ps = record c { sent = c.sent ++ ps }

pub sends-sends : (c : Client) (ps qs : List Packet) → sends (sends c ps) qs ≡ sends c (ps ++ qs)
sends-sends c ps qs = λ i. record c { sent = append_assoc c.sent ps qs i }

module _ (en : Endian) where
  pub length-encode_text : (s : Bytes) → length (encode_text en s) ≤ length s + 8
  length-encode_text s = omega (
    arith,
    length-to_ne_bytes en (length s + 1),
    length-append (to_ne_bytes en (length s + 1))
        (s ++ (0 ∷ replicate (realign_count (length s + 1)) 0)),
    length-append s (0 ∷ replicate (realign_count (length s + 1)) 0),
    length-replicate {A = ℕ} (realign_count (length s + 1)) 0,
  )

  serialize_ok :
      (p : Packet) → 8 + length p.payload ≤ 65535 → (bs : Bytes) × (serialize en p ≡ ok bs)
  unfolding serialize
  serialize_ok p h = (bytes, ground (arith, le→ltb 65535 (8 + length p.payload) h))
    where
      bytes : Bytes
      bytes =
          to_ne_bytes en p.object_id
          ++ (to_ne_bytes en ((8 + length p.payload) * 65536 + p.opcode) ++ p.payload)

  send_packet_lem :
      (p : Packet) (c : Client)
      → c.connected ≡ true
      → 8 + length p.payload ≤ 65535
      → send_packet en p c ≡ (ok tt, sends c (p ∷ []))
  unfolding send_packet
  send_packet_lem p c e h = let (bs, s) = serialize_ok p h in rw (s, send_packet) (rw e refl)

  pub request_lem :
      (m : Message) (vs : List Value) (oid : ObjectId) (c : Client)
      → AllFit m.fields vs
      → length (encode_all en vs) ≤ 65527
      → c.connected ≡ true
      → request en m vs oid c ≡ (ok tt, sends c (wire en m.opcode vs oid ∷ []))
  unfolding request
  request_lem m vs oid c f l e =
      rw (try_into_packet_lem en m.opcode m.fields vs oid f)
        (send_packet_lem (wire en m.opcode vs oid) c e (omega arith))
