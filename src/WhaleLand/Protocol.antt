-- ===== src/WhaleLand/Protocol.antt =====
-- The code that wlproto/src/output.rs generates for the arguments of a request or an event:
-- `try_from_packet` and `try_into_packet` of the `_args` structures under
-- whale-land/src/protocol. A structure is the list of its fields, each with its Rust type.
pub mod Encoding
pub mod RoundTrip
pub mod ExtDataControl
pub mod Wayland
pub mod Interfaces
pub mod Events
pub mod Proxy
use Prim.Native.String.{String}
use one_true_pairing.Wlproto.Model.{ArgType}
use one_true_pairing.Common.{ℕ, ◌==◌, if◌then◌else◌, Bool, Option, List, [], ◌∷◌}
use one_true_pairing.Common.Int.{ℤ}
use one_true_pairing.Common.Bytes.{Bytes, Endian}
use one_true_pairing.Wlproto.Output.{Field}
use one_true_pairing.Wlproto.Output.{
  ReadFunc, WriteFunc, tokenize_arg_type_read_func, tokenize_arg_type_write_func,
}
use one_true_pairing.WhaleLand.Error.{ObjectId, NewObjectId, NewObject, Result, ok, panic, ◌>>=◌}
use one_true_pairing.WhaleLand.Exec
use one_true_pairing.WhaleLand.Exec.{Exec, pure}
use one_true_pairing.WhaleLand.Fixed.{Fixed}
use one_true_pairing.WhaleLand.Packet.{
  Packet, RawFd, new, push_fd, push_uint, push_int, push_fixed, push_str, push_array, push_object,
  push_new_id_known_interface, push_new_id_unknown_interface,
}
use one_true_pairing.WhaleLand.Packet.Reader.{
  PacketReader, read, finish, read_fd, read_uint, read_int, read_fixed, read_str, read_array,
  read_object, read_new_id_known_interface, read_new_id_unknown_interface,
}

-- A value of a Rust type that a field of a generated structure can have.
pub data Value : Type 0 where
  uint : ℕ → Value
  int : ℤ → Value
  fixed : Fixed → Value
  string : Bytes → Value
  object : Option ObjectId → Value
  new_id : NewObjectId → Value
  new_object : NewObject → Value
  array : Bytes → Value
  fd : RawFd → Value

-- `__reader.finish()?; Ok(Self { .. })`
abbrev pub finished : Result (List Value) × PacketReader → Result (List Value)
finished (vs, r) = do fields ← vs; _ ← finish r; ok fields

-- A generated `_args` structure: its opcode and its fields in order.
pub record Message : Type 0 where
  pub opcode : ℕ
  pub fields : List Field

abbrev pub field : String → ArgType → Bool → Field
field name t known = record { name = name; arg_type = t; known_interface = known }

-- What `handle_event` calls: the handler of the event with that opcode, or `unknown_event`.
pub data Handled : Type 0 where
  handled : ℕ → List Value → Handled
  unknown_event : Handled

module _ (en : Endian) where
  abbrev mapped : {A : Type 0} → (A → Value) → Exec PacketReader A → Exec PacketReader Value
  mapped f m = Exec.◌>>=◌ m (λ a. pure (f a))

  -- `let field = __reader.read_func()?`
  unfoldable pub call_read : ReadFunc → Exec PacketReader Value
  call_read ReadFunc.read_uint = mapped uint (read_uint en)
  call_read ReadFunc.read_int = mapped int (read_int en)
  call_read ReadFunc.read_fixed = mapped fixed (read_fixed en)
  call_read ReadFunc.read_str = mapped string (read_str en)
  call_read ReadFunc.read_object = mapped object (read_object en)
  call_read ReadFunc.read_new_id_known_interface = mapped new_id (read_new_id_known_interface en)
  call_read ReadFunc.read_new_id_unknown_interface =
      mapped new_object (read_new_id_unknown_interface en)
  call_read ReadFunc.read_array = mapped array (read_array en)
  call_read ReadFunc.read_fd = mapped fd read_fd

  -- `__packet.push_func(self.field)`. Code with a field of another type does not compile; such
  -- calls are `panic` here.
  unfoldable pub call_write : WriteFunc → Value → Packet → Result Packet
  call_write WriteFunc.push_uint (uint v) p = ok (push_uint en v p)
  call_write WriteFunc.push_int (int v) p = ok (push_int en v p)
  call_write WriteFunc.push_fixed (fixed v) p = ok (push_fixed en v p)
  call_write WriteFunc.push_str (string v) p = push_str en v p
  call_write WriteFunc.push_object (object v) p = ok (push_object en v p)
  call_write WriteFunc.push_new_id_known_interface (new_id v) p =
      ok (push_new_id_known_interface en v p)
  call_write WriteFunc.push_new_id_unknown_interface (new_object v) p =
      push_new_id_unknown_interface en v p
  call_write WriteFunc.push_array (array v) p = push_array en v p
  call_write WriteFunc.push_fd (fd v) p = ok (push_fd v p)
  call_write _ _ p = panic

  -- The tokens for one argument.
  abbrev pub field_read : Field → Exec PacketReader Value
  field_read arg = call_read (tokenize_arg_type_read_func arg.arg_type arg.known_interface)

  abbrev pub field_write : Field → Value → Packet → Result Packet
  field_write arg = call_write (tokenize_arg_type_write_func arg.arg_type arg.known_interface)

  unfoldable pub field_reads : List Field → Exec PacketReader (List Value)
  field_reads [] = pure []
  field_reads (arg ∷ args) =
      Exec.◌>>=◌ (field_read arg) (λ v. Exec.◌>>=◌ (field_reads args) (λ vs. pure (v ∷ vs)))

  unfoldable pub field_writes : List Field → List Value → Packet → Result Packet
  field_writes [] [] p = ok p
  field_writes (arg ∷ args) (v ∷ vs) p = do p' ← field_write arg v p; field_writes args vs p'
  field_writes _ _ p = panic

  unfoldable pub try_from_packet : List Field → Packet → Result (List Value)
  try_from_packet args p = finished (field_reads args (read p))

  unfoldable pub try_into_packet : ℕ → List Field → List Value → ObjectId → Result Packet
  try_into_packet opcode args vs object_id = field_writes args vs (new object_id opcode)

  -- The generated `match __packet.opcode()` over the events of an interface.
  unfoldable pub handle_event : List Message → Packet → Result Handled
  handle_event [] packet = ok unknown_event
  handle_event (m ∷ ms) packet =
      if packet.opcode == m.opcode
      then (do vs ← try_from_packet m.fields packet; ok (handled m.opcode vs))
      else handle_event ms packet
