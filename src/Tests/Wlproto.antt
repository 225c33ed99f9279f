-- ===== src/Tests/Wlproto.antt =====
-- The protocol compiler at concrete inputs.

use one_true_pairing.Common.{◌≡◌, refl, true, false, none, some, [], ◌∷◌, ◌++◌, arith, map}
use one_true_pairing.Common.Bytes.{little}
use one_true_pairing.WhaleLand.Error.{ok}
use one_true_pairing.WhaleLand.Protocol.{Value, handled, handle_event}
use one_true_pairing.WhaleLand.Protocol.Encoding.{AllFit}
use one_true_pairing.WhaleLand.Protocol.RoundTrip.{wire}
use one_true_pairing.WhaleLand.Protocol.Wayland.{wl_callback_events}
use one_true_pairing.Wlproto.Model.{Arg, Procedure, Interface, Protocol, ArgType}
use one_true_pairing.Wlproto.Output.{
  ReadFunc, WriteFunc, field_of, tokenize_arg_type_read_func, tokenize_arg_type_write_func,
  tokenize_incoming_arg_type,
}
use one_true_pairing.Wlproto.Numerals.Spelled.{done as no_more}
use one_true_pairing.Wlproto.Numerals.{
  parse_u32_base_prefix, base_prefix, from_str_radix, digits_value, to_digit,
}
use one_true_pairing.Wlproto.Reading.Writing.{Notation}
use one_true_pairing.Wlproto.Generate.{
  messages_from, message_of, event_messages, request_messages, arg_structs,
}
use one_true_pairing.Wlproto.Generate.Handlers.{handle_event-event_messages}
use one_true_pairing.Wlproto.Tokens.{Tokenizer, repeated, plain, handle}
use one_true_pairing.Wlproto.Tokens.Interfaces.{tokenize_interface}
use one_true_pairing.Wlproto.Tokens.Operations.{
  operations, number, reads, writes, arm_operations, proxy_operations, struct_operations,
  tokenize_interface-operations,
}
use one_true_pairing.Wlproto.Tokens.Scan.{scan, scan_piece}
use one_true_pairing.Wlproto.Tokens.Scope.{between, names, IsScoped, tokenize_interface-IsScoped}
use one_true_pairing.Wlproto.Generate.Typing.{IsTyped, tokens-IsTyped}

abbrev callback_data : Arg
callback_data = record {
  name = "callback_data";
  arg_type = ArgType.uint;
  interface = none;
  short_description = some "request-specific data for the callback";
}

abbrev done : Procedure
done = record {
  name = "done";
  short_description = some "done event";
  description = some "Notify the client when the related request is done.";
  args = callback_data ∷ [];
}

abbrev wl_callback : Interface
wl_callback = record {
  name = "wl_callback";
  version = 1;
  short_description = some "callback object";
  description = some "Clients can handle the done event.";
  requests = [];
  events = done ∷ [];
  enums = [];
}

abbrev wayland : Protocol
wayland = record { name = "wayland"; interfaces = wl_callback ∷ [] }

-- The version is written with a single digit.
abbrev notation : Notation
notation = record { version_text = λ i. "1"; value_text = λ v. "0x1" }

-- What is generated for the interface is what the repository holds.
event_messages-wl_callback : event_messages wl_callback ≡ wl_callback_events
unfolding messages_from message_of field_of
event_messages-wl_callback = refl

done_data-AllFit : AllFit (map field_of done.args) (Value.uint 77 ∷ [])
unfolding tokenize_incoming_arg_type field_of
done_data-AllFit = (omega arith, tt)

handle_event-event_messages_example :
    handle_event little (event_messages wl_callback) (wire little 0 (Value.uint 77 ∷ []) 3)
    ≡ ok (handled 0 (Value.uint 77 ∷ []))
handle_event-event_messages_example =
    handle_event-event_messages little wl_callback 0 done (Value.uint 77 ∷ []) 3 refl
      done_data-AllFit

tokens-IsTyped_example : IsTyped ArgType.new_id false
tokens-IsTyped_example = tokens-IsTyped ArgType.new_id false

abbrev options : Tokenizer
options = record { asynchronous = true; in_crate = false }

handlers_declared : names "fn" "(" (tokenize_interface options wl_callback) ≡ handle "done" ∷ []
unfolding tokenize_interface scan scan_piece between
handlers_declared = refl

variables_bound :
    names "let" "=" (tokenize_interface options wl_callback)
    ≡ plain "callback_data" ∷ plain "callback_data" ∷ []
unfolding tokenize_interface scan scan_piece between
variables_bound = refl

tokenize_interface-IsScoped_example : IsScoped (tokenize_interface options wl_callback)
tokenize_interface-IsScoped_example = tokenize_interface-IsScoped options wl_callback

calls_in_order :
    operations (tokenize_interface options wl_callback)
    ≡ number 0
      ∷ reads ReadFunc.read_uint
      ∷ number 0
      ∷ reads ReadFunc.read_uint
      ∷ writes WriteFunc.push_uint
      ∷ []
unfolding tokenize_interface scan scan_piece tokenize_arg_type_read_func
    tokenize_arg_type_write_func
calls_in_order = refl

tokenize_interface-operations_example :
    operations (tokenize_interface options wl_callback)
    ≡ repeated arm_operations (event_messages wl_callback)
      ++ (repeated proxy_operations (request_messages wl_callback)
          ++ repeated (λ s. struct_operations s.message) (arg_structs wl_callback))
tokenize_interface-operations_example = tokenize_interface-operations options wl_callback

thirty_one : parse_u32_base_prefix "0x1F" ≡ some 31
unfolding parse_u32_base_prefix base_prefix from_str_radix digits_value to_digit
thirty_one = refl
