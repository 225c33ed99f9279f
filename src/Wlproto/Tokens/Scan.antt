-- ===== src/Wlproto/Tokens/Scan.antt =====
-- wlproto/src/output.rs: what a scan of the generated tokens finds, when it passes over plain text.
use Prim.Native.String.{String}
use one_true_pairing.Common.{
  ℕ, Bool, true, false, if◌then◌else◌, List, [], ◌∷◌, ◌++◌, append-nil, append_assoc, ◌≡◌, refl, ap,
  sym, ◌∙◌,
}
use one_true_pairing.Wlproto.Output.{ReadFunc, WriteFunc}
use one_true_pairing.Wlproto.Tokens.{
  Ident, ident, literal, rust_type, read_func, write_func, Piece, text, TokenStream, Tokenizer,
  repeated, Indexed, return_future_tokens_before, return_future_tokens_after, value_future_tokens,
  dot_await_tokens, namespace_tokens,
}
use one_true_pairing.Wlproto.Tokens.EventHandlers.{match_variant, handle_event_func}

pub repeated-nil {ℓ κ} :
    {A : Type ℓ} {B : Type κ} (xs : List A) → repeated {B = B} (λ x. []) xs ≡ []
unfolding repeated
repeated-nil [] = refl
repeated-nil (x ∷ xs) = repeated-nil xs

-- What is found at a piece.
pub record Scanner {ℓ} (B : Type ℓ) : Type ℓ where
  pub at_ident : String → Ident → String → List B
  pub at_literal : ℕ → List B
  pub at_read : ReadFunc → List B
  pub at_write : WriteFunc → List B

unfoldable pub scan_piece {ℓ} : {B : Type ℓ} → Scanner B → Piece → List B
scan_piece s (text v) = []
scan_piece s (ident v n w) = s.at_ident v n w
scan_piece s (literal n) = s.at_literal n
scan_piece s (rust_type in_crate t) = []
scan_piece s (read_func f) = s.at_read f
scan_piece s (write_func f) = s.at_write f

unfoldable pub scan {ℓ} : {B : Type ℓ} → Scanner B → TokenStream → List B
scan s [] = []
scan s (p ∷ ps) = scan_piece s p ++ scan s ps

pub scan-append {ℓ} :
    {B : Type ℓ} (s : Scanner B) (xs ys : TokenStream) → scan s (xs ++ ys) ≡ scan s xs ++ scan s ys
unfolding scan
scan-append s [] ys = refl
scan-append s (x ∷ xs) ys =
    ap (λ r. scan_piece s x ++ r) (scan-append s xs ys)
    ∙ sym (append_assoc (scan_piece s x) (scan s xs) (scan s ys))

pub scan-repeated {ℓ κ} :
    {A : Type ℓ} {B : Type κ} (s : Scanner B) (f : A → TokenStream) (xs : List A)
    → scan s (repeated f xs) ≡ repeated (λ x. scan s (f x)) xs
unfolding scan repeated
scan-repeated s f [] = refl
scan-repeated s f (x ∷ xs) =
    scan-append s (f x) (repeated f xs) ∙ ap (λ r. scan s (f x) ++ r) (scan-repeated s f xs)

scan-if {ℓ} :
    {B : Type ℓ} (s : Scanner B) (c : Bool) (xs ys : TokenStream) {r : List B}
    → scan s xs ≡ r
    → scan s ys ≡ r
    → scan s (if c then xs else ys) ≡ r
scan-if s true xs ys e f = e
scan-if s false xs ys e f = f

-- The options of the tokenizer change nothing that is found.
module _ {ℓ} {B : Type ℓ} (s : Scanner B) where
  pub return_future_tokens_before-scanned :
      (t : Tokenizer) → scan s (return_future_tokens_before t) ≡ []
  unfolding return_future_tokens_before scan scan_piece
  return_future_tokens_before-scanned t = scan-if s t.asynchronous _ _ refl refl

  pub return_future_tokens_after-scanned :
      (t : Tokenizer) → scan s (return_future_tokens_after t) ≡ []
  unfolding return_future_tokens_after scan scan_piece
  return_future_tokens_after-scanned t = scan-if s t.asynchronous _ _ refl refl

  pub dot_await_tokens-scanned : (t : Tokenizer) → scan s (dot_await_tokens t) ≡ []
  unfolding dot_await_tokens scan scan_piece
  dot_await_tokens-scanned t = scan-if s t.asynchronous _ _ refl refl

  pub value_future_tokens-scanned :
      (t : Tokenizer) (v : String) → scan s (value_future_tokens t (text v ∷ [])) ≡ []
  unfolding value_future_tokens scan scan_piece
  value_future_tokens-scanned t v = scan-if s t.asynchronous _ _ refl refl

  pub handle_event_func-scanned :
      (t : Tokenizer) (events : List Indexed)
      → scan s (handle_event_func t events) ≡ scan s (repeated (match_variant t) events)
  unfolding handle_event_func namespace_tokens scan scan_piece
  handle_event_func-scanned t events =
      scan-if s t.asynchronous _ _ (simp (scan-append, append-nil)) (simp (scan-append, append-nil))

pub ruleset scanned = (
  scan-append, scan-repeated, repeated-nil, return_future_tokens_before-scanned,
  return_future_tokens_after-scanned, dot_await_tokens-scanned, value_future_tokens-scanned,
  handle_event_func-scanned,
)
