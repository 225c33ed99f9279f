-- ===== src/WhaleLand/Packet.antt =====
-- whale-land/src/packet.rs, `Packet`: a message under construction and its serialized form.
pub mod Reader
pub mod Rest
pub mod Primitives
use one_true_pairing.Common.{
  ℕ, ◌+◌, ◌-◌, ◌*◌, ◌%◌, ◌^◌, ◌||◌, ◌≡◌, refl, Bool, false, Option, none, some, List, [], ◌∷◌, ◌++◌,
  ltb, leb, ◌==◌, if◌then◌else◌, length, replicate,
}
use one_true_pairing.Common.Int.{ℤ, i32_bits}
use one_true_pairing.Common.Bytes.{Bytes, Endian, to_ne_bytes}
use one_true_pairing.WhaleLand.Error.{
  ObjectId, NewObjectId, NewObject, Result, ok, err, panic, packet_too_long, ◌>>=◌,
}
use one_true_pairing.WhaleLand.Fixed.{Fixed, inner_value}

-- A `RawFd`, by its number.
abbrev pub RawFd : Type 0
RawFd = ℕ

pub record Packet : Type 0 where
  pub object_id : ObjectId
  pub opcode : ℕ
  pub payload : Bytes
  pub fds : List RawFd

abbrev pub new : ObjectId → ℕ → Packet
new object_id opcode = record { object_id = object_id; opcode = opcode; payload = []; fds = [] }

abbrev pub new_from_existing : ObjectId → ℕ → Bytes → List RawFd → Packet
new_from_existing object_id opcode payload fds = record {
  object_id = object_id;
  opcode = opcode;
  payload = payload;
  fds = fds;
}

unfoldable pub clear_payload : Packet → Packet
clear_payload p = record p { payload = []; fds = [] }

-- `self.payload.extend(bs)`
abbrev pub extend : Bytes → Packet → Packet
extend bs p = record p { payload = p.payload ++ bs }

unfoldable pub contains_nul : Bytes → Bool
contains_nul [] = false
contains_nul (b ∷ bs) = b == 0 || contains_nul bs

-- The bytes that bring `len` to a multiple of four.
abbrev pub realign_count : ℕ → ℕ
realign_count len = (4 - len % 4) % 4

unfoldable pub push_fd : RawFd → Packet → Packet
push_fd fd p = record p { fds = p.fds ++ (fd ∷ []) }

module _ (en : Endian) where
  unfoldable pub push_uint : ℕ → Packet → Packet
  push_uint value p = extend (to_ne_bytes en value) p

  unfoldable pub push_int : ℤ → Packet → Packet
  push_int value p = extend (to_ne_bytes en (i32_bits value)) p

  unfoldable pub push_fixed : Fixed → Packet → Packet
  push_fixed value p = extend (to_ne_bytes en (i32_bits (inner_value value))) p

  -- The panics are those of `assert!` and of `try_into().unwrap()`.
  unfoldable pub push_str : Bytes → Packet → Result Packet
  push_str value p =
      let len_with_nul = length value + 1 in
      if contains_nul value
      then panic
      else if leb (2 ^ 32) len_with_nul
      then panic
      else ok (
          extend
            (to_ne_bytes en len_with_nul
              ++ (value ++ (0 ∷ replicate (realign_count len_with_nul) 0)))
            p)

  unfoldable pub push_array : Bytes → Packet → Result Packet
  push_array array p =
      let len = length array in
      if leb (2 ^ 32) len
      then panic
      else ok (extend (to_ne_bytes en len ++ (array ++ replicate (realign_count len) 0)) p)

  unfoldable pub push_object : Option ObjectId → Packet → Packet
  unfolding push_uint
  push_object (some oi) p = push_uint oi p
  push_object none p = push_uint 0 p

  unfoldable pub push_new_id_known_interface : NewObjectId → Packet → Packet
  unfolding push_object
  push_new_id_known_interface new_id p = push_object (some new_id) p

  unfoldable pub push_new_id_unknown_interface : NewObject → Packet → Result Packet
  unfolding push_str push_uint push_object
  push_new_id_unknown_interface new_obj p = do
    p' ← push_str new_obj.interface p
    ok (push_object (some new_obj.object_id) (push_uint new_obj.interface_version p'))

  -- `(u32::from(size_u16) << 16) | u32::from(opcode)`: the opcode is a `u16`, so the two share no
  -- bit, and `|` adds.
  unfoldable pub serialize : Packet → Result Bytes
  serialize p =
      let total_bytes = 8 + length p.payload in
      if ltb 65535 total_bytes
      then err (packet_too_long total_bytes 65535)
      else ok (
          to_ne_bytes en p.object_id
          ++ (to_ne_bytes en (total_bytes * 65536 + p.opcode) ++ p.payload))
