-- ===== src/Wlproto/Tokens/Interfaces.antt =====
-- wlproto/src/output.rs: the tokens of an interface and of a protocol.
use one_true_pairing.Common.{◌∷◌, [], ◌++◌, List}
use one_true_pairing.Wlproto.Model.{Arg, Procedure, Interface, Protocol}
use one_true_pairing.Wlproto.Generate.{Kind, request, event}
use one_true_pairing.Wlproto.Tokens.{
  Ident, plain, send, request_proxy, args, text, ident, literal, TokenStream, Tokenizer,
  namespace_tokens, repeated, Indexed, enumerate_from, incoming_type, outgoing_type, read_name,
  write_name, write_reference,
}
use one_true_pairing.Wlproto.Tokens.EventHandlers.{event_handler_trait}

-- `arg_write_func_calls`
unfoldable pub arg_write_func_call : Arg → TokenStream
unfolding write_name write_reference
arg_write_func_call arg =
    text "__packet ."
    ∷ write_name arg
    ∷ text "("
    ∷ write_reference arg
    ∷ ident "" (plain arg.name) ");"
    ∷ []

-- `proxy_funcs`, which are `async` in any case.
unfoldable pub proxy_func : Tokenizer → Indexed → TokenStream
unfolding repeated namespace_tokens outgoing_type arg_write_func_call
proxy_func t req =
    text "pub"
    ∷ ident "async fn" (send req.procedure.name) "("
    ∷ text "&self, __object_id:"
    ∷ namespace_tokens t
    ∷ text "ObjectId"
    ∷ (repeated (λ arg. ident "," (plain arg.name) ":" ∷ outgoing_type t arg ∷ [])
          req.procedure.args
        ++ (text ") -> Result<(),"
            ∷ namespace_tokens t
            ∷ text "Error> { let mut __packet ="
            ∷ namespace_tokens t
            ∷ text "Packet::new( __object_id,"
            ∷ literal req.index
            ∷ text ", );"
            ∷ (repeated arg_write_func_call req.procedure.args
                ++ (text "self.connection.send_packet(&__packet).await }" ∷ []))))

-- `request_proxies`, for an interface with requests.
unfoldable pub request_proxy_struct : Tokenizer → Interface → TokenStream
unfolding repeated enumerate_from namespace_tokens proxy_func
request_proxy_struct t i =
    text "#[allow(unused)]"
    ∷ ident "pub struct" (request_proxy i.name i.version) "<'a>"
    ∷ text "{ connection: &'a"
    ∷ namespace_tokens t
    ∷ text "Connection, } #[allow(unused)]"
    ∷ ident "impl<'a>" (request_proxy i.name i.version) "<'a>"
    ∷ text "{ pub fn new( connection: &'a"
    ∷ namespace_tokens t
    ∷ text "Connection, ) -> Self { Self { connection, } }"
    ∷ (repeated (proxy_func t) (enumerate_from 0 i.requests) ++ (text "}" ∷ []))

-- `field_reads`
unfoldable pub field_read : Arg → TokenStream
unfolding read_name
field_read arg =
    ident "let" (plain arg.name) "=" ∷ text "__reader." ∷ read_name arg ∷ text "()?;" ∷ []

-- `field_writes`
unfoldable pub field_write : Arg → TokenStream
unfolding write_name write_reference
field_write arg =
    text "__packet ."
    ∷ write_name arg
    ∷ text "("
    ∷ write_reference arg
    ∷ ident "self ." (plain arg.name) ");"
    ∷ []

-- The two conversions of the standard library, at the end of what is pushed to `arg_structs`.
unfoldable pub conversions : Tokenizer → Ident → TokenStream
unfolding namespace_tokens
conversions t arg_struct_name =
    text "impl ::std::convert::TryFrom<"
    ∷ namespace_tokens t
    ∷ text "Packet >"
    ∷ ident "for" arg_struct_name "{"
    ∷ text "type Error ="
    ∷ namespace_tokens t
    ∷ text "Error; fn try_from(__value:"
    ∷ namespace_tokens t
    ∷ text "Packet) -> Result<Self, Self::Error> { Self::try_from_packet(&__value) } }"
    ∷ text "impl ::std::convert::TryFrom<("
    ∷ namespace_tokens t
    ∷ text "ObjectId"
    ∷ ident "," arg_struct_name ")> for"
    ∷ namespace_tokens t
    ∷ text "Packet { type Error ="
    ∷ namespace_tokens t
    ∷ text "Error; fn try_from(__value: ("
    ∷ namespace_tokens t
    ∷ text "ObjectId"
    ∷ ident "," arg_struct_name ")"
    ∷ text ") -> Result<Self, Self::Error> { let (__object_id, __structure) = __value;"
    ∷ text "__structure.try_into_packet(__object_id) } }"
    ∷ []

-- What is pushed to `arg_structs` for one procedure.
unfoldable pub arg_struct : Tokenizer → Interface → Kind → Indexed → TokenStream
unfolding repeated namespace_tokens incoming_type field_read field_write conversions
arg_struct t i kind p =
    let arg_struct_name = args i.name i.version kind p.procedure.name in
    ident "pub struct" arg_struct_name "{"
    ∷ (repeated (λ arg. ident "pub" (plain arg.name) ":" ∷ incoming_type t arg ∷ text "," ∷ [])
          p.procedure.args
        ++ (text "}"
            ∷ ident "impl" arg_struct_name "{"
            ∷ text "pub const OPCODE: u16 ="
            ∷ literal p.index
            ∷ text "; pub fn try_from_packet(__value: &"
            ∷ namespace_tokens t
            ∷ text "Packet) ->"
            ∷ ident "Result<" arg_struct_name ","
            ∷ namespace_tokens t
            ∷ text "Error > { let mut __reader = __value.read();"
            ∷ (repeated field_read p.procedure.args
                ++ (text "__reader.finish()?; Ok(Self {"
                    ∷ (repeated (λ arg. ident "" (plain arg.name) "," ∷ []) p.procedure.args
                        ++ (text "}) } pub fn try_into_packet(&self, __object_id:"
                            ∷ namespace_tokens t
                            ∷ text "ObjectId) -> Result<"
                            ∷ namespace_tokens t
                            ∷ text "Packet ,"
                            ∷ namespace_tokens t
                            ∷ text "Error > { let mut __packet ="
                            ∷ namespace_tokens t
                            ∷ text "Packet::new(__object_id, Self::OPCODE);"
                            ∷ (repeated field_write p.procedure.args
                                ++ (text "Ok(__packet) } }" ∷ conversions t arg_struct_name))))))))

-- `event_handlers` and `request_proxies`, which are empty without events or requests.
unfoldable pub unless_empty : List Procedure → TokenStream → TokenStream
unless_empty [] tokens = []
unless_empty (p ∷ ps) tokens = tokens

unfoldable pub tokenize_interface : Tokenizer → Interface → TokenStream
unfolding unless_empty repeated enumerate_from event_handler_trait request_proxy_struct arg_struct
tokenize_interface t i =
    unless_empty i.events (event_handler_trait t i)
    ++ (unless_empty i.requests (request_proxy_struct t i)
        ++ (repeated (arg_struct t i request) (enumerate_from 0 i.requests)
            ++ repeated (arg_struct t i event) (enumerate_from 0 i.events)))

unfoldable pub tokenize_protocol : Tokenizer → Protocol → TokenStream
unfolding repeated tokenize_interface
tokenize_protocol t protocol =
    text "#![allow(non_camel_case_types)]" ∷ repeated (tokenize_interface t) protocol.interfaces
