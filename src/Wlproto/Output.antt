-- ===== src/Wlproto/Output.antt =====
-- wlproto/src/output.rs: which Rust type, which read function and which push function the
-- generated code has for an argument. A token is a constructor.
use Prim.Native.String.{String}
use one_true_pairing.Common.{Bool, true, false, if◌then◌else◌}
use one_true_pairing.Wlproto.Model.{
  ArgType, Arg, is_some, uint, int, fixed, string, object_id, new_id, array, file_descriptor,
}

-- What the tokens of an argument depend on: `arg.arg_type` and `arg.interface.is_some()`.
pub record Field : Type 0 where
  pub name : String
  pub arg_type : ArgType
  pub known_interface : Bool

unfoldable pub field_of : Arg → Field
field_of arg = record {
  name = arg.name;
  arg_type = arg.arg_type;
  known_interface = is_some arg.interface;
}

pub data RustType : Type 0 where
  u32 i32 fixed_type string_type option_object_id new_object_id new_object vec_u8 raw_fd : RustType
  str_ref u8_slice_ref : RustType

pub data ReadFunc : Type 0 where
  read_uint read_int read_fixed read_str read_object : ReadFunc
  read_new_id_known_interface read_new_id_unknown_interface read_array read_fd : ReadFunc

pub data WriteFunc : Type 0 where
  push_uint push_int push_fixed push_str push_object : WriteFunc
  push_new_id_known_interface push_new_id_unknown_interface push_array push_fd : WriteFunc

unfoldable pub tokenize_incoming_arg_type : ArgType → Bool → RustType
tokenize_incoming_arg_type uint known = u32
tokenize_incoming_arg_type int known = i32
tokenize_incoming_arg_type fixed known = fixed_type
tokenize_incoming_arg_type string known = string_type
tokenize_incoming_arg_type object_id known = option_object_id
tokenize_incoming_arg_type new_id known = if known then new_object_id else new_object
tokenize_incoming_arg_type array known = vec_u8
tokenize_incoming_arg_type file_descriptor known = raw_fd

unfoldable pub tokenize_outgoing_arg_type : ArgType → Bool → RustType
unfolding tokenize_incoming_arg_type
tokenize_outgoing_arg_type string known = str_ref
tokenize_outgoing_arg_type array known = u8_slice_ref
tokenize_outgoing_arg_type other known = tokenize_incoming_arg_type other known

unfoldable pub tokenize_arg_type_read_func : ArgType → Bool → ReadFunc
tokenize_arg_type_read_func uint known = read_uint
tokenize_arg_type_read_func int known = read_int
tokenize_arg_type_read_func fixed known = read_fixed
tokenize_arg_type_read_func string known = read_str
tokenize_arg_type_read_func object_id known = read_object
tokenize_arg_type_read_func new_id known =
    if known then read_new_id_known_interface else read_new_id_unknown_interface
tokenize_arg_type_read_func array known = read_array
tokenize_arg_type_read_func file_descriptor known = read_fd

unfoldable pub tokenize_arg_type_write_func : ArgType → Bool → WriteFunc
tokenize_arg_type_write_func uint known = push_uint
tokenize_arg_type_write_func int known = push_int
tokenize_arg_type_write_func fixed known = push_fixed
tokenize_arg_type_write_func string known = push_str
tokenize_arg_type_write_func object_id known = push_object
tokenize_arg_type_write_func new_id known =
    if known then push_new_id_known_interface else push_new_id_unknown_interface
tokenize_arg_type_write_func array known = push_array
tokenize_arg_type_write_func file_descriptor known = push_fd

-- Whether the argument of the push function is passed as `&self.field`.
unfoldable pub tokenize_arg_type_write_reference : ArgType → Bool → Bool
tokenize_arg_type_write_reference string known = true
tokenize_arg_type_write_reference array known = true
tokenize_arg_type_write_reference new_id known = if known then false else true
tokenize_arg_type_write_reference _ known = false
