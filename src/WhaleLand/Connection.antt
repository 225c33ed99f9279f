-- ===== src/WhaleLand/Connection.antt =====
-- whale-land/src/connection.rs: packets over the socket, object IDs and event handlers.
pub mod Receive
pub mod RoundTrip
pub mod Handlers
pub mod Ids
pub mod Send
pub mod Transport
pub mod Closed
pub mod Cancelled
pub mod Environment
use one_true_pairing.Common.{
  ℕ, zero, suc, ◌+◌, ◌-◌, ◌/◌, ◌%◌, ◌^◌, Bool, true, false, Option, some, none, List, [], ◌∷◌, ◌++◌,
  ltb, ◌==◌, if◌then◌else◌, length, take, drop,
}
use one_true_pairing.Common.Bytes.{Bytes, Endian, from_ne_bytes}
use one_true_pairing.WhaleLand.Error.{
  ObjectId, object_id_new, packet_too_short, zero_object_id, no_event_handler, Result, ok, err,
  hang,
}
use one_true_pairing.WhaleLand.Exec.{Exec, pure, raise, lift, ◌>>=◌, ◌>>◌}
use one_true_pairing.WhaleLand.Packet.{Packet, RawFd, serialize, new_from_existing}
use one_true_pairing.WhaleLand.Packet.Reader.{or_zero_object_id}
use one_true_pairing.WhaleLand.Socket.{Arrival, recv_with_fds, recv, Outgoing, send_with_fds, send}

-- `while total_received < n { total_received += recv(rest)? }`, where `acc` is what has arrived.
-- Without fuel the loop still turns: `hang`.
unfoldable pub recv_loop : ℕ → ℕ → Bytes → Exec (List Arrival) Bytes
recv_loop zero n acc s = if ltb (length acc) n then (hang, s) else (ok acc, s)
recv_loop (suc fuel) n acc s = elim (ltb (length acc) n) [
  | true ↦ (do bs ← recv (n - length acc); recv_loop fuel n (acc ++ bs)) s
  | false ↦ (ok acc, s)
]

-- `total_received = recv(buf)?`, and the loop after it.
unfoldable pub recv_exact : ℕ → ℕ → Exec (List Arrival) Bytes
recv_exact fuel n = do start ← recv n; recv_loop fuel n start

-- `while total_sent < serialized.len() { total_sent += send(rest)? }` on the bytes not yet sent.
unfoldable pub send_loop : ℕ → Bytes → Exec Outgoing (Unit {0})
send_loop fuel [] o = (ok tt, o)
send_loop zero (b ∷ bs) o = (hang, o)
send_loop (suc fuel) (b ∷ bs) o =
    (do now_sent ← send (b ∷ bs); send_loop fuel (drop now_sent (b ∷ bs))) o

-- The header of a packet: object, size and opcode, from its eight bytes.
pub record Header : Type 0 where
  pub object_id : ℕ
  pub packet_size : ℕ
  pub opcode : ℕ

module _ (en : Endian) where
  -- The source masks the opcode with `0xFF`.
  unfoldable pub parse_header : Bytes → Header
  parse_header fixed_buf =
      let size_and_opcode = from_ne_bytes en (drop 4 fixed_buf) in
      record {
        object_id = from_ne_bytes en (take 4 fixed_buf);
        packet_size = size_and_opcode / 65536;
        opcode = size_and_opcode % 256;
      }

  -- What follows the header.
  unfoldable pub recv_body : ℕ → Header → List RawFd → Exec (List Arrival) Packet
  recv_body fuel h fds =
      if ltb h.packet_size 8 then raise (packet_too_short h.packet_size 8) else do
        object_id ← lift (or_zero_object_id (object_id_new h.object_id))
        payload ← recv_exact fuel (h.packet_size - 8)
        pure (new_from_existing object_id h.opcode payload fds)

  unfoldable pub recv_packet : ℕ → Exec (List Arrival) Packet
  recv_packet fuel = do
    (start, fds) ← recv_with_fds 8
    fixed_buf ← recv_loop fuel 8 start
    recv_body fuel (parse_header fixed_buf) fds

  unfoldable pub send_packet : ℕ → Packet → Exec Outgoing (Unit {0})
  send_packet fuel packet = do
    serialized ← lift (serialize en packet)
    total_sent ← send_with_fds serialized packet.fds
    send_loop fuel (drop total_sent serialized)

-- `get_and_increment_next_object_id` on the counter, an `AtomicU32`. The loop ends in its second
-- round at the latest; without fuel it still turns.
unfoldable pub next_object_id_loop : ℕ → ℕ → Result ObjectId × ℕ
next_object_id_loop zero counter = (hang, counter)
next_object_id_loop (suc fuel) counter = elim (object_id_new counter) [
  | none ↦ next_object_id_loop fuel ((counter + 1) % 2 ^ 32)
  | some oid ↦ (ok oid, (counter + 1) % 2 ^ 32)
]

-- The counter of a new connection: 0 is NULL, 1 is always `wl_display`.
abbrev pub first_object_id : ℕ
first_object_id = 2

-- The map from objects to event handlers.
module _ {H : Type 0} where
  unfoldable pub find_handler : List (ObjectId × H) → ObjectId → Option H
  find_handler [] oid = none
  find_handler ((k, h) ∷ m) oid = if k == oid then some h else find_handler m oid

  unfoldable pub drop_handler : List (ObjectId × H) → ObjectId → List (ObjectId × H)
  drop_handler [] oid = []
  drop_handler ((k, h) ∷ m) oid =
      let rest = drop_handler m oid in if k == oid then rest else (k, h) ∷ rest

  -- An insertion replaces the handler that the object had.
  unfoldable pub register_handler : List (ObjectId × H) → ObjectId → H → List (ObjectId × H)
  unfolding drop_handler
  register_handler m oid h = (oid, h) ∷ drop_handler m oid

  -- `handle` runs a handler on a packet.
  unfoldable pub dispatch :
      (H → Packet → Result (Unit {0})) → List (ObjectId × H) → Packet → Result (Unit {0})
  unfolding find_handler
  dispatch handle m packet = elim (find_handler m packet.object_id) [
    | none ↦ err (no_event_handler packet.object_id)
    | some h ↦ handle h packet
  ]
