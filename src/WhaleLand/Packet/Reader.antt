-- ===== src/WhaleLand/Packet/Reader.antt =====
-- whale-land/src/packet.rs, `PacketReader`: typed reads from a packet, with a cursor for the
-- payload and one for the file descriptors.
use one_true_pairing.Common.{
  ℕ, suc, ◌+◌, Bool, false, ◌&&◌, Option, none, some, [], ◌∷◌, ltb, leb, ◌==◌, if◌then◌else◌,
  length, take, drop, get_elem?,
}
use mathlib.Core.Option
use one_true_pairing.Common.Int.{ℤ, i32_of_bits}
use one_true_pairing.Common.Bytes.{Bytes, Endian, from_ne_bytes, is_utf8}
use one_true_pairing.WhaleLand.Error.{
  ObjectId, NewObjectId, NewObject, object_id_new, Result, ok, err, panic, field_out_of_bounds,
  fd_out_of_bounds, string_misplaced_nul, string_invalid_utf8, incomplete_read, zero_object_id,
}
use one_true_pairing.WhaleLand.Exec.{Exec, pure, lift, ◌>>=◌, ◌>>◌}
use one_true_pairing.WhaleLand.Fixed.{Fixed, from_inner_value}
use one_true_pairing.WhaleLand.Packet.{Packet, RawFd, realign_count}

pub record PacketReader : Type 0 where
  pub packet : Packet
  pub payload_pos : ℕ
  pub fd_pos : ℕ

-- `Packet::read`
abbrev pub read : Packet → PacketReader
read p = record { packet = p; payload_pos = 0; fd_pos = 0 }

-- The payload from the cursor on.
abbrev pub unread : PacketReader → Bytes
unread r = drop r.payload_pos r.packet.payload

abbrev total : PacketReader → ℕ
total r = length r.packet.payload

-- `peek_bytes` with a buffer of `n` bytes. The error speaks of 4 bytes, whatever `n` is.
unfoldable pub peek_bytes : ℕ → Exec PacketReader Bytes
peek_bytes n r =
    if ltb (total r) (r.payload_pos + n)
    then (err (field_out_of_bounds (r.payload_pos + 4) (total r)), r)
    else (ok (take n (unread r)), r)

-- `self.payload_pos += n`
abbrev pub advance : ℕ → Exec PacketReader (Unit {0})
advance n r = (ok tt, record r { payload_pos = r.payload_pos + n })

-- `&self.packet.payload[self.payload_pos..self.payload_pos+len]`, which panics out of range.
abbrev slice : ℕ → Exec PacketReader Bytes
slice len r = (if ltb (total r) (r.payload_pos + len) then panic else ok (take len (unread r)), r)

-- `string_slice.iter().position(|b| *b == 0x00)`
unfoldable pub position_nul : Bytes → Option ℕ
position_nul [] = none
position_nul (b ∷ bs) = if b == 0 then some 0 else Option.map suc (position_nul bs)

abbrev is_some_at : Option ℕ → ℕ → Bool
is_some_at none i = false
is_some_at (some j) i = j == i

-- The tests of `read_str` on the bytes it has cut out. Of no bytes at all `len() - 1` is an
-- arithmetic overflow, a panic where overflow is checked.
unfoldable pub checked_str : Bytes → Result Bytes
checked_str [] = panic
checked_str (b ∷ bs) =
    let nul_pos = position_nul (b ∷ bs) in
    let no_nul = take (length bs) (b ∷ bs) in
    if is_some_at nul_pos (length bs)
    then (if is_utf8 no_nul then ok no_nul else err (string_invalid_utf8 no_nul))
    else err (string_misplaced_nul nul_pos (length bs))

-- What `read_str` and `read_array` share: past the length, the bytes and their padding.
unfoldable pub read_padded : ℕ → Exec PacketReader Bytes
read_padded len r =
    let len_padded = len + realign_count len in
    if ltb (total r) (r.payload_pos + 4 + len_padded)
    then (err (field_out_of_bounds (r.payload_pos + 4 + len_padded) (total r)), r)
    else (do advance 4; bytes ← slice len; advance len_padded; pure bytes) r

unfoldable pub read_fd : Exec PacketReader RawFd
read_fd r = elim (get_elem? r.packet.fds r.fd_pos) [
  | none ↦ (err (fd_out_of_bounds (length r.packet.fds)), r)
  | some fd ↦ (ok fd, record r { fd_pos = r.fd_pos + 1 })
]

unfoldable pub finish : PacketReader → Result (Unit {0})
finish r =
    if leb (total r) r.payload_pos && leb (length r.packet.fds) r.fd_pos
    then ok tt
    else err (incomplete_read r.payload_pos (total r) r.fd_pos (length r.packet.fds))

abbrev pub or_zero_object_id : Option ObjectId → Result ObjectId
or_zero_object_id none = err zero_object_id
or_zero_object_id (some oid) = ok oid

module _ (en : Endian) where
  unfoldable pub read_uint : Exec PacketReader ℕ
  unfolding peek_bytes
  read_uint = do buf ← peek_bytes 4; advance 4; pure (from_ne_bytes en buf)

  unfoldable pub read_int : Exec PacketReader ℤ
  unfolding peek_bytes
  read_int = do buf ← peek_bytes 4; advance 4; pure (i32_of_bits (from_ne_bytes en buf))

  unfoldable pub read_fixed : Exec PacketReader Fixed
  unfolding peek_bytes
  read_fixed = do
    buf ← peek_bytes 4
    advance 4
    pure (from_inner_value (i32_of_bits (from_ne_bytes en buf)))

  unfoldable pub read_str : Exec PacketReader Bytes
  unfolding peek_bytes read_padded
  read_str = do
    len_buf ← peek_bytes 4
    string_slice ← read_padded (from_ne_bytes en len_buf)
    lift (checked_str string_slice)

  unfoldable pub read_array : Exec PacketReader Bytes
  unfolding peek_bytes read_padded
  read_array = do len_buf ← peek_bytes 4; read_padded (from_ne_bytes en len_buf)

  unfoldable pub read_object : Exec PacketReader (Option ObjectId)
  read_object = do oid ← read_uint; pure (object_id_new oid)

  unfoldable pub read_new_id_known_interface : Exec PacketReader NewObjectId
  read_new_id_known_interface = do oid_opt ← read_object; lift (or_zero_object_id oid_opt)

  unfoldable pub read_new_id_unknown_interface : Exec PacketReader NewObject
  read_new_id_unknown_interface = do
    interface ← read_str
    version ← read_uint
    oid_opt ← read_object
    oid ← lift (or_zero_object_id oid_opt)
    pure (record { object_id = oid; interface = interface; interface_version = version })
