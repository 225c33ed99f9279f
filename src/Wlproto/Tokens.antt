-- ===== src/Wlproto/Tokens.antt =====
-- wlproto/src/output.rs: the tokens of the generated code. The text of a quote is kept in pieces, cut
-- where something is put into it.
pub mod EventHandlers
pub mod Interfaces
pub mod Scan
pub mod Operations
pub mod Scope
use Prim.Native.String.{String}
use one_true_pairing.Common.{ℕ, suc, Bool, List, [], ◌∷◌, ◌++◌, if◌then◌else◌}
use one_true_pairing.Wlproto.Model.{Arg, Procedure, is_some}
use one_true_pairing.Wlproto.Output.{
  RustType, ReadFunc, WriteFunc, tokenize_incoming_arg_type, tokenize_outgoing_arg_type,
  tokenize_arg_type_read_func, tokenize_arg_type_write_func, tokenize_arg_type_write_reference,
}
use one_true_pairing.Wlproto.Generate.{Kind}

-- The identifiers, as the parts that `format!` puts together. Those of an interface begin with its
-- name and its version, `interface_name_ver`.
pub data Ident : Type 0 where
  plain handle send : String → Ident
  event_handler request_proxy : String → ℕ → Ident
  args : String → ℕ → Kind → String → Ident

-- An identifier stands between what comes directly before and after it in the quote. The type of an
-- argument has the namespace of the crate if the flag is set.
pub data Piece : Type 0 where
  text : String → Piece
  ident : String → Ident → String → Piece
  literal : ℕ → Piece
  rust_type : Bool → RustType → Piece
  read_func : ReadFunc → Piece
  write_func : WriteFunc → Piece

abbrev pub TokenStream : Type 0
TokenStream = List Piece

pub record Tokenizer : Type 0 where
  pub asynchronous : Bool
  pub in_crate : Bool

unfoldable pub return_future_tokens_before : Tokenizer → TokenStream
return_future_tokens_before t =
    if t.asynchronous then text "impl ::std::future::Future<Output =" ∷ [] else []

unfoldable pub return_future_tokens_after : Tokenizer → TokenStream
return_future_tokens_after t =
    if t.asynchronous then text "> + ::std::marker::Send + ::std::marker::Sync" ∷ [] else []

unfoldable pub value_future_tokens : Tokenizer → TokenStream → TokenStream
value_future_tokens t value =
    if t.asynchronous then text "::std::future::ready(" ∷ (value ++ (text ")" ∷ [])) else value

unfoldable pub dot_await_tokens : Tokenizer → TokenStream
dot_await_tokens t = if t.asynchronous then text ". await" ∷ [] else []

-- `namespace_tokens`, which is one path.
unfoldable pub namespace_tokens : Tokenizer → Piece
namespace_tokens t = text (if t.in_crate then "crate::" else "::whale_land::")

-- `#( #f )*`
unfoldable pub repeated {ℓ κ} : {A : Type ℓ} {B : Type κ} → (A → List B) → List A → List B
repeated f [] = []
repeated f (x ∷ xs) = f x ++ repeated f xs

-- `.iter().enumerate()`, from `n` on.
pub record Indexed : Type 0 where
  pub index : ℕ
  pub procedure : Procedure

unfoldable pub enumerate_from : ℕ → List Procedure → List Indexed
enumerate_from n [] = []
enumerate_from n (p ∷ ps) = record { index = n; procedure = p } ∷ enumerate_from (suc n) ps

unfoldable pub incoming_type : Tokenizer → Arg → Piece
incoming_type t arg =
    rust_type t.in_crate (tokenize_incoming_arg_type arg.arg_type (is_some arg.interface))

unfoldable pub outgoing_type : Tokenizer → Arg → Piece
outgoing_type t arg =
    rust_type t.in_crate (tokenize_outgoing_arg_type arg.arg_type (is_some arg.interface))

unfoldable pub read_name : Arg → Piece
read_name arg = read_func (tokenize_arg_type_read_func arg.arg_type (is_some arg.interface))

unfoldable pub write_name : Arg → Piece
write_name arg = write_func (tokenize_arg_type_write_func arg.arg_type (is_some arg.interface))

unfoldable pub write_reference : Arg → Piece
write_reference arg =
    text
      (if tokenize_arg_type_write_reference arg.arg_type (is_some arg.interface) then "&" else "")
