-- ===== src/Wlproto/Generate.antt =====
-- wlproto/src/output.rs, `tokenize_interface`: the opcodes and the arguments of what is generated for
-- an interface. An identifier is kept as the parts that it is formatted from.
pub mod Handlers
pub mod Typing
use Prim.Native.String.{String}
use one_true_pairing.Common.{ℕ, zero, suc, List, [], ◌∷◌, ◌++◌, map}
use one_true_pairing.Wlproto.Model.{Arg, Procedure, Interface, Protocol}
use one_true_pairing.Wlproto.Output.{Field, field_of}
use one_true_pairing.WhaleLand.Protocol.{Message}

pub data Kind : Type 0 where
  request event : Kind

-- `_args` structure: `{interface}_v{version}_{kind}_{procedure}_args`, its opcode and its fields.
pub record ArgStruct : Type 0 where
  pub interface_name : String
  pub version : ℕ
  pub kind : Kind
  pub procedure_name : String
  pub message : Message

-- The loop over the arguments, which makes a field, a read and a write for each.
unfoldable pub message_of : ℕ → Procedure → Message
message_of opcode p = record { opcode = opcode; fields = map field_of p.args }

-- `.iter().enumerate()`, from `n` on.
unfoldable pub messages_from : ℕ → List Procedure → List Message
unfolding message_of
messages_from n [] = []
messages_from n (p ∷ ps) = message_of n p ∷ messages_from (suc n) ps

-- The arms of `handle_event`.
abbrev pub event_messages : Interface → List Message
event_messages i = messages_from 0 i.events

-- The functions of the request proxy.
abbrev pub request_messages : Interface → List Message
request_messages i = messages_from 0 i.requests

unfoldable pub structs_from : Interface → Kind → ℕ → List Procedure → List ArgStruct
unfolding message_of
structs_from i kind n [] = []
structs_from i kind n (p ∷ ps) =
    record {
      interface_name = i.name;
      version = i.version;
      kind = kind;
      procedure_name = p.name;
      message = message_of n p;
    }
    ∷ structs_from i kind (suc n) ps

-- The requests, then the events.
unfoldable pub arg_structs : Interface → List ArgStruct
unfolding structs_from
arg_structs i = structs_from i request 0 i.requests ++ structs_from i event 0 i.events
