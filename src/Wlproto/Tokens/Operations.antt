-- ===== src/Wlproto/Tokens/Operations.antt =====
-- wlproto/src/output.rs: the generated tokens against the messages of Generate.
use one_true_pairing.Common.{
  ℕ, suc, List, [], ◌∷◌, ◌++◌, map, append-nil, append_assoc, ◌≡◌, refl, ap, sym, ◌∙◌,
}
use one_true_pairing.Wlproto.Model.{Procedure, Interface}
use one_true_pairing.Wlproto.Output.{
  field_of, tokenize_arg_type_read_func, tokenize_arg_type_write_func, ReadFunc, WriteFunc,
}
use one_true_pairing.WhaleLand.Protocol.{Message}
use one_true_pairing.Wlproto.Generate.{
  Kind, request, event, message_of, messages_from, event_messages, request_messages, structs_from,
  arg_structs,
}
use one_true_pairing.Wlproto.Tokens.{
  TokenStream, Tokenizer, repeated, Indexed, namespace_tokens, incoming_type, outgoing_type,
  read_name, write_name, write_reference, enumerate_from,
}
use one_true_pairing.Wlproto.Tokens.EventHandlers.{
  handle_func_prototype, arg_decoder, match_variant, unknown_event_func, event_handler_trait,
}
use one_true_pairing.Wlproto.Tokens.Interfaces.{
  arg_write_func_call, proxy_func, request_proxy_struct, field_read, field_write, conversions,
  arg_struct, unless_empty, tokenize_interface,
}
use one_true_pairing.Wlproto.Tokens.Scan.{
  Scanner, scan_piece, scan, scan-append, scan-repeated, scanned,
}

-- What the generated code does: a number, or a call of a read or push function.
pub data Operation : Type 0 where
  number : ℕ → Operation
  reads : ReadFunc → Operation
  writes : WriteFunc → Operation

abbrev pub every_operation : Scanner Operation
every_operation = record {
  at_ident = λ v n w. [];
  at_literal = λ n. number n ∷ [];
  at_read = λ f. reads f ∷ [];
  at_write = λ f. writes f ∷ [];
}

-- The opcodes and the calls in the tokens, in their order.
abbrev pub operations : TokenStream → List Operation
operations ts = scan every_operation ts

abbrev field_reads : Message → List Operation
field_reads m =
    repeated (λ f. reads (tokenize_arg_type_read_func f.arg_type f.known_interface) ∷ []) m.fields

abbrev field_writes : Message → List Operation
field_writes m =
    repeated (λ f. writes (tokenize_arg_type_write_func f.arg_type f.known_interface) ∷ []) m.fields

-- An arm of the dispatch reads the fields.
unfoldable pub arm_operations : Message → List Operation
arm_operations m = number m.opcode ∷ field_reads m

-- A proxy function writes them.
unfoldable pub proxy_operations : Message → List Operation
proxy_operations m = number m.opcode ∷ field_writes m

-- A structure has a function that reads them and one that writes them.
unfoldable pub struct_operations : Message → List Operation
struct_operations m = number m.opcode ∷ (field_reads m ++ field_writes m)

repeated-map {ℓ κ μ} :
    {A : Type ℓ} {B : Type κ} {C : Type μ} (g : B → List C) (f : A → B) (xs : List A)
    → repeated g (map f xs) ≡ repeated (λ x. g (f x)) xs
unfolding repeated
repeated-map g f [] = refl
repeated-map g f (x ∷ xs) = ap (λ r. g (f x) ++ r) (repeated-map g f xs)

repeated-append {ℓ κ} :
    {A : Type ℓ} {B : Type κ} (f : A → List B) (xs ys : List A)
    → repeated f (xs ++ ys) ≡ repeated f xs ++ repeated f ys
unfolding repeated
repeated-append f [] ys = refl
repeated-append f (x ∷ xs) ys =
    ap (λ r. f x ++ r) (repeated-append f xs ys)
    ∙ sym (append_assoc (f x) (repeated f xs) (repeated f ys))

match_variant-operations :
    (t : Tokenizer) (n : ℕ) (p : Procedure)
    → operations (match_variant t (record { index = n; procedure = p }))
      ≡ arm_operations (message_of n p)
unfolding scan scan_piece match_variant arg_decoder read_name arm_operations message_of field_of
match_variant-operations t n p = simp (scanned, repeated-map, append-nil)

proxy_func-operations :
    (t : Tokenizer) (n : ℕ) (p : Procedure)
    → operations (proxy_func t (record { index = n; procedure = p }))
      ≡ proxy_operations (message_of n p)
unfolding scan scan_piece proxy_func arg_write_func_call namespace_tokens outgoing_type write_name
    write_reference proxy_operations message_of field_of
proxy_func-operations t n p = simp (scanned, repeated-map, append-nil)

arg_struct-operations :
    (t : Tokenizer) (i : Interface) (kind : Kind) (n : ℕ) (p : Procedure)
    → operations (arg_struct t i kind (record { index = n; procedure = p }))
      ≡ struct_operations (message_of n p)
unfolding scan scan_piece arg_struct conversions field_read field_write namespace_tokens
    incoming_type read_name write_name write_reference struct_operations message_of field_of
arg_struct-operations t i kind n p = simp (scanned, repeated-map, append-nil)

-- A loop over the numbered procedures against one over their messages.
module _ (f : Indexed → List Operation) (g : Message → List Operation)
    (e : (n : ℕ) (p : Procedure)
      → f (record { index = n; procedure = p }) ≡ g (message_of n p)) where
  repeated-messages_from :
      (n : ℕ) (ps : List Procedure)
      → repeated f (enumerate_from n ps) ≡ repeated g (messages_from n ps)
  unfolding repeated enumerate_from messages_from
  repeated-messages_from n [] = refl
  repeated-messages_from n (p ∷ ps) = rw (e n p, repeated-messages_from (suc n) ps) refl

  repeated-structs_from :
      (i : Interface) (kind : Kind) (n : ℕ) (ps : List Procedure)
      → repeated f (enumerate_from n ps) ≡ repeated (λ s. g s.message) (structs_from i kind n ps)
  unfolding repeated enumerate_from structs_from
  repeated-structs_from i kind n [] = refl
  repeated-structs_from i kind n (p ∷ ps) = rw (e n p, repeated-structs_from i kind (suc n) ps) refl

unless_empty-operations :
    (g : Message → List Operation) (ps : List Procedure) (ts : TokenStream)
    → operations ts ≡ repeated g (messages_from 0 ps)
    → operations (unless_empty ps ts) ≡ repeated g (messages_from 0 ps)
unfolding scan unless_empty repeated messages_from
unless_empty-operations g [] ts e = refl
unless_empty-operations g (p ∷ ps) ts e = e

event_handler_trait-operations :
    (t : Tokenizer) (i : Interface)
    → operations (event_handler_trait t i)
      ≡ repeated (λ e. operations (match_variant t e)) (enumerate_from 0 i.events)
unfolding scan scan_piece event_handler_trait handle_func_prototype unknown_event_func
    namespace_tokens incoming_type
event_handler_trait-operations t i = simp (scanned, append-nil)

request_proxy_struct-operations :
    (t : Tokenizer) (i : Interface)
    → operations (request_proxy_struct t i)
      ≡ repeated (λ e. operations (proxy_func t e)) (enumerate_from 0 i.requests)
unfolding scan scan_piece request_proxy_struct namespace_tokens
request_proxy_struct-operations t i = simp (scanned, append-nil)

arg_structs-operations :
    (t : Tokenizer) (i : Interface) (kind : Kind) (ps : List Procedure)
    → operations (repeated (arg_struct t i kind) (enumerate_from 0 ps))
      ≡ repeated (λ s. struct_operations s.message) (structs_from i kind 0 ps)
arg_structs-operations t i kind ps =
    scan-repeated every_operation (arg_struct t i kind) (enumerate_from 0 ps)
    ∙ repeated-structs_from _ struct_operations (arg_struct-operations t i kind) i kind 0 ps

-- Whatever the options, the opcodes and the calls of read and push functions in the tokens that
-- are generated for an interface are, in this order, those of its messages: for every event its
-- opcode and the reads of its fields, for every request its opcode and the writes, and for the
-- structure of every request, then of every event, its opcode, the reads and the writes.
pub tokenize_interface-operations :
    (t : Tokenizer) (i : Interface)
    → operations (tokenize_interface t i)
      ≡ repeated arm_operations (event_messages i)
        ++ (repeated proxy_operations (request_messages i)
            ++ repeated (λ s. struct_operations s.message) (arg_structs i))
unfolding tokenize_interface arg_structs
tokenize_interface-operations t i =
    rw
      (
        scan-append,
        scan-append,
        scan-append,
        unless_empty-operations arm_operations i.events (event_handler_trait t i) (
            event_handler_trait-operations t i
            ∙ repeated-messages_from _ arm_operations (match_variant-operations t) 0 i.events),
        unless_empty-operations proxy_operations i.requests (request_proxy_struct t i) (
            request_proxy_struct-operations t i
            ∙ repeated-messages_from _ proxy_operations (proxy_func-operations t) 0 i.requests),
        arg_structs-operations t i request i.requests,
        arg_structs-operations t i event i.events,
        repeated-append (λ s. struct_operations s.message) (structs_from i request 0 i.requests)
            (structs_from i event 0 i.events),
      )
      refl
