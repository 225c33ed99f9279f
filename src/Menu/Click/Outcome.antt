-- ===== src/Menu/Click/Outcome.antt =====
-- notifier/mod.rs, `event`: everything that an event can come to.
use one_true_pairing.Common.{
  ℕ, zero, suc, ◌+◌, ◌-◌, ◌%◌, ◌^◌, ◌<◌, ◌≤◌, ◌≡◌, ◌≢◌, refl, ap, true, Option, none, some, List,
  [], ◌∷◌, ◌++◌, ◌==◌, ==_iff, Bool-cases, inl, inr, get_elem?,
}
use one_true_pairing.Common.Int.{ℤ, pos, negsuc}
use one_true_pairing.Common.Bytes.{Bytes, is_utf8}
use one_true_pairing.Totp.Hotp.{Algorithm}
use one_true_pairing.Totp.Hotp.Codes.{IsHmac}
use one_true_pairing.Totp.Url.{TotpParameters, default_algorithm, try_from_otpauth_url}
use one_true_pairing.Totp.Url.Valid.{IsValid, try_from_otpauth_url-IsValid}
use one_true_pairing.Clipboard.State.{exit}
use one_true_pairing.Menu.Layout.{menu_separator_id, menu_update_id, menu_exit_id}
use one_true_pairing.Menu.Click.{
  MenuEvent, clicked, hovered, ContextMenu, send_message, unwrap_or, algorithm_of, Clicked,
  returned, panicked, update_menu, use_parameters, use_secret, click_secret, click_index, is_id_of,
  click, event,
}
use one_true_pairing.Menu.Click.Codes.{code_message, copy_code_lem, digits_of, digits_bounds}

-- What is read of a secret: no panic, and valid UTF-8 if there is one.
abbrev pub IsLegible : Option (Option Bytes) → Type 0
IsLegible none = ⊥
IsLegible (some none) = Unit
IsLegible (some (some secret)) = is_utf8 secret ≡ true

module _ (secrets : List (Bytes × Bytes)) where
  -- No panic, and one of four changes: none, the message that ends the program, the new secrets, or
  -- a code of 6 to 8 digits for the clipboard.
  pub data Outcome (menu : ContextMenu) : Clicked → Type 0 where
    unchanged : Outcome menu (returned menu)
    exited : Outcome menu (returned (send_message exit menu))
    updated : Outcome menu (
        returned record menu {
          secret_name_to_path = secrets;
          menu_revision = (menu.menu_revision + 1) % 2 ^ 32;
          layouts_updated = menu.layouts_updated ++ (menu.menu_revision ∷ []);
        })
    copied :
        (digits code : ℕ)
        → 6 ≤ digits
        → digits ≤ 8
        → code < 10 ^ digits
        → Outcome menu (returned (send_message (code_message digits code) menu))

module _ (get_secrets : Option (List (Bytes × Bytes))) (secrets : List (Bytes × Bytes))
    (read : get_secrets ≡ some secrets) (get_secret : Bytes → Option (Option Bytes))
    {hmac : Algorithm → Bytes → Bytes → Bytes} (h : IsHmac hmac) (unix_time : ℕ)
    (legible : (path : Bytes) → IsLegible (get_secret path)) where
  use_parameters-Outcome :
      (params : TotpParameters) (menu : ContextMenu)
      → IsValid params
      → Outcome secrets menu
          (use_parameters get_secrets get_secret hmac (some unix_time) params menu)
  unfolding use_parameters
  use_parameters-Outcome params menu v =
      cases (algorithm_of (unwrap_or default_algorithm params.algorithm)) refl
    where
      cases :
          (r : Option Algorithm)
          → algorithm_of (unwrap_or default_algorithm params.algorithm) ≡ r
          → Outcome secrets menu
              (use_parameters get_secrets get_secret hmac (some unix_time) params menu)
      cases none e = rw (e, use_parameters) unchanged
      cases (some a) e =
          let (lo, hi) = digits_bounds params.digits v.digits in
          let (code, _, f, _, _, b) =
            copy_code_lem get_secrets get_secret h unix_time params a menu v in
          rw (e, use_parameters) (rw f (copied (digits_of params) code lo hi b))

  use_secret-Outcome :
      (secret : Bytes) (menu : ContextMenu)
      → is_utf8 secret ≡ true
      → Outcome secrets menu (use_secret get_secrets get_secret hmac (some unix_time) secret menu)
  unfolding use_secret
  use_secret-Outcome secret menu u = rw (u, use_secret) (cases (try_from_otpauth_url secret) refl)
    where
      cases :
          (r : Option TotpParameters)
          → try_from_otpauth_url secret ≡ r
          → Outcome secrets menu (elim (try_from_otpauth_url secret) [
            | none ↦ returned menu
            | some params ↦ use_parameters get_secrets get_secret hmac (some unix_time) params menu
          ])
      cases none e = rw e unchanged
      cases (some params) e =
          rw e (use_parameters-Outcome params menu (try_from_otpauth_url-IsValid secret params e))

  click_secret-Outcome :
      (k : ℕ) (menu : ContextMenu)
      → Outcome secrets menu (click_secret get_secrets get_secret hmac (some unix_time) k menu)
  unfolding click_secret
  click_secret-Outcome k menu = cases (get_elem? menu.secret_name_to_path k)
    where
      with_secret :
          (r : Option (Option Bytes))
          → IsLegible r
          → Outcome secrets menu (elim r [
            | none ↦ panicked
            | some none ↦ returned menu
            | some (some secret) ↦
                use_secret get_secrets get_secret hmac (some unix_time) secret menu
          ])
      with_secret none l = absurd l
      with_secret (some none) l = unchanged
      with_secret (some (some secret)) l = use_secret-Outcome secret menu l

      cases :
          (r : Option (Bytes × Bytes))
          → Outcome secrets menu (elim r [
            | none ↦ returned menu
            | some (name, path) ↦ elim (get_secret path) [
              | none ↦ panicked
              | some none ↦ returned menu
              | some (some secret) ↦
                  use_secret get_secrets get_secret hmac (some unix_time) secret menu
            ]
          ])
      cases none = unchanged
      cases (some (name, path)) = with_secret (get_secret path) (legible path)

  click_index-Outcome :
      (id : ℤ) (menu : ContextMenu)
      → id ≢ negsuc (2 ^ 31 - 1)
      → Outcome secrets menu (click_index get_secrets get_secret hmac (some unix_time) id menu)
  unfolding click_index
  click_index-Outcome (pos zero) menu least = unchanged
  click_index-Outcome (pos (suc k)) menu least = click_secret-Outcome k menu
  click_index-Outcome (negsuc n) menu least = elim (Bool-cases (n == 2 ^ 31 - 1)) [
    | inl e ↦ absurd (least (ap negsuc ((==_iff n (2 ^ 31 - 1)).0 e)))
    | inr e ↦ rw (e, click_index) unchanged
  ]

  -- Where the clock is not before 1970, the session with the secrets does not panic, every secret
  -- that it returns is valid UTF-8, and with an HMAC whose result has the digest's length, an
  -- event for any ID but the least i32 does not panic, and does one of four things: nothing, send
  -- the message that ends the program, take over the new secrets, or send a code of 6 to 8 digits.
  pub event-Outcome :
      (id : ℤ) (what : MenuEvent) (menu : ContextMenu)
      → id ≢ negsuc (2 ^ 31 - 1)
      → Outcome secrets menu (event get_secrets get_secret hmac (some unix_time) id what menu)
  unfolding event click update_menu
  event-Outcome id hovered menu least = unchanged
  event-Outcome id clicked menu least = elim (Bool-cases (is_id_of menu_separator_id id)) [
    | inl e ↦ rw (e, click) unchanged
    | inr e ↦
        rw (e, click)
          (elim (Bool-cases (is_id_of menu_exit_id id)) [
            | inl f ↦ rw f exited
            | inr f ↦ rw f (elim (Bool-cases (is_id_of menu_update_id id)) [
              | inl g ↦ rw g (rw (read, update_menu) updated)
              | inr g ↦ rw g (click_index-Outcome id menu least)
            ])
          ])
  ]
