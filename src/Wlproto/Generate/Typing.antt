-- ===== src/Wlproto/Generate/Typing.antt =====
-- wlproto/src/output.rs: the types of the generated calls of packet.rs.
use one_true_pairing.Common.{◌≡◌, refl, Bool, true, false}
use one_true_pairing.Wlproto.Model.{ArgType}
use one_true_pairing.Wlproto.Output.{
  RustType, u32, i32, fixed_type, string_type, option_object_id, new_object_id, vec_u8, raw_fd,
  str_ref, u8_slice_ref, ReadFunc, WriteFunc, tokenize_incoming_arg_type,
  tokenize_outgoing_arg_type, tokenize_arg_type_read_func, tokenize_arg_type_write_func,
  tokenize_arg_type_write_reference,
}

-- What a read function of packet.rs returns.
abbrev pub returned : ReadFunc → RustType
returned ReadFunc.read_uint = u32
returned ReadFunc.read_int = i32
returned ReadFunc.read_fixed = fixed_type
returned ReadFunc.read_str = string_type
returned ReadFunc.read_object = option_object_id
returned ReadFunc.read_new_id_known_interface = new_object_id
returned ReadFunc.read_new_id_unknown_interface = RustType.new_object
returned ReadFunc.read_array = vec_u8
returned ReadFunc.read_fd = raw_fd

-- `Accepts func reference t`: the push function takes an expression of the type `t`, behind a `&`
-- where `reference` is set. A `&String` and a `&&str` become a `&str`, and a `&Vec<u8>` and a `&&[u8]`
-- a `&[u8]`.
pub data Accepts : WriteFunc → Bool → RustType → Type 0 where
  uint : Accepts WriteFunc.push_uint false u32
  int : Accepts WriteFunc.push_int false i32
  fixed : Accepts WriteFunc.push_fixed false fixed_type
  string : Accepts WriteFunc.push_str true string_type
  str : Accepts WriteFunc.push_str true str_ref
  object : Accepts WriteFunc.push_object false option_object_id
  new_id : Accepts WriteFunc.push_new_id_known_interface false new_object_id
  new_object : Accepts WriteFunc.push_new_id_unknown_interface true RustType.new_object
  vec : Accepts WriteFunc.push_array true vec_u8
  slice : Accepts WriteFunc.push_array true u8_slice_ref
  fd : Accepts WriteFunc.push_fd false raw_fd

-- What is generated for one argument: its read, its write from a structure, and its write from the
-- parameter of a proxy function.
pub record IsTyped (t : ArgType) (known : Bool) : Type 0 where
  pub read : returned (tokenize_arg_type_read_func t known) ≡ tokenize_incoming_arg_type t known
  pub write :
      Accepts
        (tokenize_arg_type_write_func t known)
        (tokenize_arg_type_write_reference t known)
        (tokenize_incoming_arg_type t known)
  pub send :
      Accepts
        (tokenize_arg_type_write_func t known)
        (tokenize_arg_type_write_reference t known)
        (tokenize_outgoing_arg_type t known)

-- For every type of argument the generated code type checks: the read function returns the type of
-- the field, and the push function takes the field of a structure and the parameter of a proxy
-- function, each behind a `&` where the generated call has one.
pub tokens-IsTyped : (t : ArgType) (known : Bool) → IsTyped t known
unfolding tokenize_incoming_arg_type tokenize_outgoing_arg_type tokenize_arg_type_read_func
    tokenize_arg_type_write_func tokenize_arg_type_write_reference
tokens-IsTyped ArgType.uint known = record { read = refl; write = uint; send = uint }
tokens-IsTyped ArgType.int known = record { read = refl; write = int; send = int }
tokens-IsTyped ArgType.fixed known = record { read = refl; write = fixed; send = fixed }
tokens-IsTyped ArgType.string known = record { read = refl; write = string; send = str }
tokens-IsTyped ArgType.object_id known = record { read = refl; write = object; send = object }
tokens-IsTyped ArgType.new_id true = record { read = refl; write = new_id; send = new_id }
tokens-IsTyped ArgType.new_id false = record { read = refl; write = new_object; send = new_object }
tokens-IsTyped ArgType.array known = record { read = refl; write = vec; send = slice }
tokens-IsTyped ArgType.file_descriptor known = record { read = refl; write = fd; send = fd }
