-- ===== src/Wlproto/Tokens/EventHandlers.antt =====
-- wlproto/src/output.rs, `tokenize_interface`: the tokens of the trait for the events of an
-- interface.
use one_true_pairing.Common.{◌∷◌, [], ◌++◌, List, if◌then◌else◌}
use one_true_pairing.Wlproto.Model.{Arg, Interface}
use one_true_pairing.Wlproto.Tokens.{
  plain, handle, event_handler, text, ident, literal, TokenStream, Tokenizer,
  return_future_tokens_before, return_future_tokens_after, value_future_tokens, dot_await_tokens,
  namespace_tokens, repeated, Indexed, enumerate_from, incoming_type, read_name,
}

-- `handle_func_prototypes`
unfoldable pub handle_func_prototype : Tokenizer → Indexed → TokenStream
unfolding repeated namespace_tokens incoming_type return_future_tokens_before
    return_future_tokens_after
handle_func_prototype t e =
    ident "fn" (handle e.procedure.name) "("
    ∷ text "&self, connection: &"
    ∷ namespace_tokens t
    ∷ text "Connection, packet:"
    ∷ namespace_tokens t
    ∷ text "Packet,"
    ∷ (repeated (λ arg. ident "" (plain arg.name) ":" ∷ incoming_type t arg ∷ text "," ∷ [])
          e.procedure.args
        ++ (text ") ->"
            ∷ (return_future_tokens_before t
                ++ (text "()" ∷ (return_future_tokens_after t ++ (text ";" ∷ []))))))

-- `arg_decoders`
unfoldable pub arg_decoder : Arg → TokenStream
unfolding read_name
arg_decoder arg =
    ident "let" (plain arg.name) "=" ∷ text "__packet_reader ." ∷ read_name arg ∷ text "()?;" ∷ []

-- `match_variants`, each with the comma of the `match`.
unfoldable pub match_variant : Tokenizer → Indexed → TokenStream
unfolding repeated arg_decoder dot_await_tokens
match_variant t e =
    literal e.index
    ∷ text "=> { let mut __packet_reader = __packet.read();"
    ∷ (repeated arg_decoder e.procedure.args
        ++ (text "__packet_reader.finish()?;"
            ∷ ident "self ." (handle e.procedure.name) "("
            ∷ text "__connection, __packet,"
            ∷ (repeated (λ arg. ident "" (plain arg.name) "," ∷ []) e.procedure.args
                ++ (text ")" ∷ (dot_await_tokens t ++ (text "; Ok(()) }" ∷ text "," ∷ []))))))

-- `handle_event_func`. The body is an `async` block in both cases.
unfoldable pub handle_event_func : Tokenizer → List Indexed → TokenStream
unfolding repeated match_variant namespace_tokens
handle_event_func t events =
    if t.asynchronous
    then text "fn handle_event( &self, __connection: &"
      ∷ namespace_tokens t
      ∷ text "Connection, __packet:"
      ∷ namespace_tokens t
      ∷ text "Packet, ) -> impl std::future::Future<Output = ::std::result::Result<(),"
      ∷ namespace_tokens t
      ∷ text "Error>> + ::std::marker::Send + ::std::marker::Sync where Self : Sync {"
      ∷ text "async"
      ∷ text "{ match __packet.opcode() {"
      ∷ (repeated (match_variant t) events
          ++ (text "__other => { self.unknown_event(__connection, __packet).await; Ok(()) },"
              ∷ text "} } }"
              ∷ []))
    else text "fn handle_event( &self, __connection: &"
      ∷ namespace_tokens t
      ∷ text "Connection, __packet:"
      ∷ namespace_tokens t
      ∷ text "Packet, ) -> ::std::result::Result<(),"
      ∷ namespace_tokens t
      ∷ text "Error> {"
      ∷ text "async"
      ∷ text "{ match __packet.opcode() {"
      ∷ (repeated (match_variant t) events
          ++ (text "__other => { self.unknown_event(__connection, __packet); Ok(()) },"
              ∷ text "} } }"
              ∷ []))

-- `unknown_event`
unfoldable pub unknown_event_func : Tokenizer → TokenStream
unfolding namespace_tokens return_future_tokens_before return_future_tokens_after
    value_future_tokens
unknown_event_func t =
    text "fn unknown_event(&self, connection: &"
    ∷ namespace_tokens t
    ∷ text "Connection, packet:"
    ∷ namespace_tokens t
    ∷ text "Packet) ->"
    ∷ (return_future_tokens_before t
        ++ (text "()"
            ∷ (return_future_tokens_after t
                ++ (text "{ let _ = connection; let _ = packet;"
                    ∷ (value_future_tokens t (text "()" ∷ []) ++ (text "}" ∷ []))))))

-- `event_handlers`, for an interface with events.
unfoldable pub event_handler_trait : Tokenizer → Interface → TokenStream
unfolding repeated enumerate_from handle_func_prototype unknown_event_func handle_event_func
event_handler_trait t i =
    let events = enumerate_from 0 i.events in
    text "#[allow(unused)]"
    ∷ ident "pub trait" (event_handler i.name i.version) ":"
    ∷ namespace_tokens t
    ∷ text "protocol::EventHandler {"
    ∷ (repeated (handle_func_prototype t) events
        ++ (unknown_event_func t ++ (handle_event_func t events ++ (text "}" ∷ []))))
