-- ===== src/Wlproto/Tokens/Scope.antt =====
-- wlproto/src/output.rs: what the generated code uses, against what it declares.
use Prim.Native.String.{String}
use package.text.Mathlib.Text.{◌==◌}
use one_true_pairing.Common.{◌&&◌, if◌then◌else◌, List, [], ◌∷◌, ◌++◌, ◌≡◌, refl}
use one_true_pairing.Wlproto.Model.{Interface}
use one_true_pairing.Wlproto.Tokens.{
  Ident, TokenStream, Tokenizer, repeated, Indexed, namespace_tokens, incoming_type, read_name,
  outgoing_type, write_name, write_reference,
}
use one_true_pairing.Wlproto.Tokens.Scan.{Scanner, scan_piece, scan, scan-append, scanned}
use one_true_pairing.Wlproto.Tokens.EventHandlers.{
  handle_func_prototype, arg_decoder, match_variant, unknown_event_func, event_handler_trait,
}
use one_true_pairing.Wlproto.Tokens.Interfaces.{
  arg_write_func_call, proxy_func, request_proxy_struct, field_read, field_write, conversions,
  arg_struct, unless_empty, tokenize_interface,
}
use one_true_pairing.Wlproto.Generate.{Kind, request, event}
use one_true_pairing.Wlproto.Model.{Procedure}

-- The identifiers that stand between two given texts.
unfoldable pub between : String → String → Scanner Ident
between before after = record {
  at_ident = λ v n w. if v == before && w == after then n ∷ [] else [];
  at_literal = λ n. [];
  at_read = λ f. [];
  at_write = λ f. [];
}

abbrev pub names : String → String → TokenStream → List Ident
names before after ts = scan (between before after) ts

-- Every handler that the dispatch calls is one that the trait declares, every field that is written
-- is one of the structure, every variable that is passed on is one that is bound, and every
-- parameter of a proxy function is pushed; all in the same order.
pub record IsScoped (ts : TokenStream) : Type 0 where
  pub handlers : names "self ." "(" ts ≡ names "fn" "(" ts
  pub fields : names "self ." ");" ts ≡ names "pub" ":" ts
  pub variables : names "" "," ts ≡ names "let" "=" ts
  pub parameters : names "" ");" ts ≡ names "," ":" ts

nothing-IsScoped : IsScoped []
unfolding scan
nothing-IsScoped = record { handlers = refl; fields = refl; variables = refl; parameters = refl }

append-equal :
    (b a c d : String) (xs ys : TokenStream)
    → names b a xs ≡ names c d xs
    → names b a ys ≡ names c d ys
    → names b a (xs ++ ys) ≡ names c d (xs ++ ys)
append-equal b a c d xs ys e f =
    rw (scan-append (between b a) xs ys, scan-append (between c d) xs ys, e, f) refl

append-IsScoped : (xs ys : TokenStream) → IsScoped xs → IsScoped ys → IsScoped (xs ++ ys)
append-IsScoped xs ys x y = record {
  handlers = append-equal "self ." "(" "fn" "(" xs ys x.handlers y.handlers;
  fields = append-equal "self ." ");" "pub" ":" xs ys x.fields y.fields;
  variables = append-equal "" "," "let" "=" xs ys x.variables y.variables;
  parameters = append-equal "" ");" "," ":" xs ys x.parameters y.parameters;
}

repeated-IsScoped {ℓ} :
    {A : Type ℓ} (f : A → TokenStream) (xs : List A)
    → ((x : A) → IsScoped (f x))
    → IsScoped (repeated f xs)
unfolding repeated
repeated-IsScoped f [] e = nothing-IsScoped
repeated-IsScoped f (x ∷ xs) e =
    append-IsScoped (f x) (repeated f xs) (e x) (repeated-IsScoped f xs e)

unless_empty-IsScoped :
    (ps : List Procedure) (ts : TokenStream) → IsScoped ts → IsScoped (unless_empty ps ts)
unfolding unless_empty
unless_empty-IsScoped [] ts e = nothing-IsScoped
unless_empty-IsScoped (p ∷ ps) ts e = e

event_handler_trait-IsScoped : (t : Tokenizer) (i : Interface) → IsScoped (event_handler_trait t i)
unfolding scan scan_piece between event_handler_trait handle_func_prototype unknown_event_func
    match_variant arg_decoder namespace_tokens incoming_type read_name
event_handler_trait-IsScoped t i = record {
  handlers = simp scanned;
  fields = simp scanned;
  variables = simp scanned;
  parameters = simp scanned;
}

request_proxy_struct-IsScoped :
    (t : Tokenizer) (i : Interface) → IsScoped (request_proxy_struct t i)
unfolding scan scan_piece between request_proxy_struct proxy_func arg_write_func_call
    namespace_tokens outgoing_type write_name write_reference
request_proxy_struct-IsScoped t i = record {
  handlers = simp scanned;
  fields = simp scanned;
  variables = simp scanned;
  parameters = simp scanned;
}

arg_struct-IsScoped :
    (t : Tokenizer) (i : Interface) (kind : Kind) (p : Indexed) → IsScoped (arg_struct t i kind p)
unfolding scan scan_piece between arg_struct conversions field_read field_write namespace_tokens
    incoming_type read_name write_name write_reference
arg_struct-IsScoped t i kind p = record {
  handlers = simp scanned;
  fields = simp scanned;
  variables = simp scanned;
  parameters = simp scanned;
}

-- Whatever the options, in the tokens that are generated for an interface, every handler that the
-- dispatch calls is one that the trait declares, every field that is written to a packet is one of
-- the structure, every variable that is passed on is one that is bound, and every argument that a
-- proxy function pushes is one of its parameters, and all of them stand in the same order.
pub tokenize_interface-IsScoped :
    (t : Tokenizer) (i : Interface) → IsScoped (tokenize_interface t i)
unfolding tokenize_interface
tokenize_interface-IsScoped t i =
    append-IsScoped _ _ (unless_empty-IsScoped i.events _ (event_handler_trait-IsScoped t i)) (
      append-IsScoped _ _ (unless_empty-IsScoped i.requests _ (request_proxy_struct-IsScoped t i)) (
        append-IsScoped _ _
          (repeated-IsScoped (arg_struct t i request) _ (arg_struct-IsScoped t i request))
          (repeated-IsScoped (arg_struct t i event) _ (arg_struct-IsScoped t i event))))
