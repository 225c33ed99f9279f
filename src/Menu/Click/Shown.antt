-- ===== src/Menu/Click/Shown.antt =====
-- notifier/mod.rs: what an entry of the menu shows and what a click on it copies belong together.
use one_true_pairing.Common.{
  ℕ, zero, suc, ◌<◌, ◌≡◌, refl, ap, ◌∙◌, true, Option, some, List, [], ◌∷◌, arith, map, length,
  get_elem?,
}
use mathlib.Core.Option.{some-injective}
use one_true_pairing.Common.Int.{pos}
use one_true_pairing.Common.Bytes.{Bytes, codes, is_utf8}
use one_true_pairing.Totp.Hotp.{Algorithm, totp}
use one_true_pairing.Totp.Hotp.Codes.{IsHmac}
use one_true_pairing.Totp.Url.{bytes_eq, TotpParameters, default_algorithm, try_from_otpauth_url}
use one_true_pairing.Menu.Layout.{menu_update_id, value, get_property}
use one_true_pairing.Menu.Layout.Lookup.{entry_property, get_property-entry_property}
use one_true_pairing.Menu.Click.{
  ContextMenu, clicked, event, returned, send_message, unwrap_or, algorithm_of,
}
use one_true_pairing.Menu.Click.Codes.{code_message, digits_of, period_of, event-copies}

abbrev pub names_of : ContextMenu → List Bytes
names_of menu = map (λ entry. entry.0) menu.secret_name_to_path

get_elem?-names :
    (entries : List (Bytes × Bytes)) (k : ℕ) (name path : Bytes)
    → get_elem? entries k ≡ some (name, path)
    → get_elem? (map (λ entry. entry.0) entries) k ≡ some name
get_elem?-names [] k name path e = ground (arith, e)
get_elem?-names (entry ∷ entries) zero name path e =
    ap (λ q. some q.0) (some-injective entry (name, path) e)
get_elem?-names (entry ∷ entries) (suc k) name path e = get_elem?-names entries k name path e

get_elem?-lt :
    (entries : List (Bytes × Bytes)) (k : ℕ) (name path : Bytes)
    → get_elem? entries k ≡ some (name, path)
    → k < length entries
get_elem?-lt [] k name path e = ground (arith, e)
get_elem?-lt (entry ∷ entries) zero name path e = omega arith
get_elem?-lt (entry ∷ entries) (suc k) name path e =
    omega (arith, get_elem?-lt entries k name path e)

length-names :
    (entries : List (Bytes × Bytes)) → length (map (λ entry. entry.0) entries) ≡ length entries
length-names [] = refl
length-names (entry ∷ entries) = omega (arith, length-names entries)

label_lem : (name : Bytes) → entry_property (codes "label") name ≡ value name
unfolding bytes_eq
label_lem name = refl

module _ (get_secrets : Option (List (Bytes × Bytes))) (get_secret : Bytes → Option (Option Bytes))
    {hmac : Algorithm → Bytes → Bytes → Bytes} (h : IsHmac hmac) (unix_time : ℕ) where
  -- The entry number k + 1 of the menu is labelled with the k-th name, and a click on it, where
  -- the secret under that name is read, is UTF-8, and is a URL with parameters and a known
  -- algorithm, sends the code that totp gives for exactly that secret at this moment, and changes
  -- nothing else, as long as there are fewer names than the lowest of the fixed IDs, and with a
  -- clock that is not before 1970 and an HMAC whose result has the digest's length.
  pub event-shown :
      (menu : ContextMenu) (k : ℕ) (name path secret : Bytes) (params : TotpParameters)
      (a : Algorithm)
      → length menu.secret_name_to_path < menu_update_id
      → get_elem? menu.secret_name_to_path k ≡ some (name, path)
      → get_secret path ≡ some (some secret)
      → is_utf8 secret ≡ true
      → try_from_otpauth_url secret ≡ some params
      → algorithm_of (unwrap_or default_algorithm params.algorithm) ≡ some a
      → (code : ℕ) × (get_property (names_of menu) (pos (suc k)) (codes "label")
          ≡ some (value name))
        × (totp hmac a params.key unix_time (period_of params) (digits_of params) ≡ some code)
        × (event get_secrets get_secret hmac (some unix_time) (pos (suc k)) clicked menu
            ≡ returned (send_message (code_message (digits_of params) code) menu))
  event-shown menu k name path secret params a l e_path e_secret e_utf8 e_params e_algorithm =
      let below = get_elem?-lt menu.secret_name_to_path k name path e_path in
      let (code, e, f, _, _) =
        event-copies get_secrets get_secret h unix_time k menu name path secret params a
          (omega (arith, below, l)) e_path e_secret e_utf8 e_params e_algorithm in
      (
        code,
        get_property-entry_property (names_of menu) k name (codes "label")
              (omega (arith, l, length-names menu.secret_name_to_path))
              (get_elem?-names menu.secret_name_to_path k name path e_path)
            ∙ ap some (label_lem name),
        e,
        f,
      )
