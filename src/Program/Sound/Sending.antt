-- ===== src/Program/Sound/Sending.antt =====
-- notifier/mod.rs, `event`: whatever the session answers, what the menu has sent stays sent.
use one_true_pairing.Common.{
  ℕ, zero, suc, ◌-◌, ◌^◌, ◌≡◌, refl, sym, Option, none, some, List, [], ◌++◌, append-nil, ◌==◌,
  get_elem?, Bool-cases, Option-cases, inl, inr,
}
use one_true_pairing.Common.Int.{ℤ, pos, negsuc}
use one_true_pairing.Common.Bytes.{Bytes, is_utf8}
use one_true_pairing.Totp.Hotp.{Algorithm, totp_now}
use one_true_pairing.Totp.Url.{
  TotpParameters, try_from_otpauth_url, default_algorithm, default_digits, default_period_seconds,
}
use one_true_pairing.Clipboard.State.{ClipboardMessage}
use one_true_pairing.Menu.Layout.{menu_separator_id, menu_update_id, menu_exit_id}
use one_true_pairing.Menu.Click.{
  ContextMenu, MenuEvent, clicked, hovered, Clicked, returned, panicked, unwrap_or, algorithm_of,
  is_id_of, update_menu, copy_code, use_parameters, use_secret, click_secret, click_index, click,
  event,
}

-- The menu goes on with what it has sent, and perhaps more.
abbrev pub Extends : ContextMenu → Clicked → Type 0
Extends menu (returned menu') = (more : List ClipboardMessage) × (menu'.sent ≡ menu.sent ++ more)
Extends menu panicked = Unit

same : (menu : ContextMenu) → Extends menu (returned menu)
same menu = ([], sym (append-nil menu.sent))

module _ (get_secrets : Option (List (Bytes × Bytes))) (get_secret : Bytes → Option (Option Bytes))
    (hmac : Algorithm → Bytes → Bytes → Bytes) (clock : Option ℕ) where
  update_menu-Extends :
      (menu : ContextMenu) → Extends menu (update_menu get_secrets get_secret hmac clock menu)
  unfolding update_menu
  update_menu-Extends menu = elim (Option-cases get_secrets) [
    | inl e ↦ rw (e, update_menu) tt
    | inr (new_secrets, e) ↦ rw (e, update_menu) (same menu)
  ]

  copy_code-Extends :
      (params : TotpParameters) (a : Algorithm) (menu : ContextMenu)
      → Extends menu (copy_code get_secrets get_secret hmac clock params a menu)
  unfolding copy_code
  copy_code-Extends params a menu =
      elim (Option-cases (
        totp_now hmac clock a params.key (unwrap_or default_period_seconds params.period_seconds)
          (unwrap_or default_digits params.digits))) [
            | inl e ↦ rw (e, copy_code) tt
            | inr (code, e) ↦ rw (e, copy_code) (_, refl)
          ]

  use_parameters-Extends :
      (params : TotpParameters) (menu : ContextMenu)
      → Extends menu (use_parameters get_secrets get_secret hmac clock params menu)
  unfolding use_parameters
  use_parameters-Extends params menu =
      elim (Option-cases (algorithm_of (unwrap_or default_algorithm params.algorithm))) [
        | inl e ↦ rw (e, use_parameters) (same menu)
        | inr (a, e) ↦ rw (e, use_parameters) (copy_code-Extends params a menu)
      ]

  use_secret-Extends :
      (secret : Bytes) (menu : ContextMenu)
      → Extends menu (use_secret get_secrets get_secret hmac clock secret menu)
  unfolding use_secret
  use_secret-Extends secret menu = elim (Bool-cases (is_utf8 secret)) [
    | inr e ↦ rw e tt
    | inl e ↦ elim (Option-cases (try_from_otpauth_url secret)) [
      | inl f ↦ rw (e, f, use_secret) (same menu)
      | inr (params, f) ↦ rw (e, f, use_secret) (use_parameters-Extends params menu)
    ]
  ]

  click_secret-Extends :
      (k : ℕ) (menu : ContextMenu)
      → Extends menu (click_secret get_secrets get_secret hmac clock k menu)
  unfolding click_secret
  click_secret-Extends k menu = elim (Option-cases (get_elem? menu.secret_name_to_path k)) [
    | inl e ↦ rw (e, click_secret) (same menu)
    | inr ((name, path), e) ↦ elim (Option-cases (get_secret path)) [
      | inl f ↦ rw (e, f, click_secret) tt
      | inr (none, f) ↦ rw (e, f, click_secret) (same menu)
      | inr (some secret, f) ↦ rw (e, f, click_secret) (use_secret-Extends secret menu)
    ]
  ]

  click_index-Extends :
      (id : ℤ) (menu : ContextMenu)
      → Extends menu (click_index get_secrets get_secret hmac clock id menu)
  unfolding click_index
  click_index-Extends (pos zero) menu = same menu
  click_index-Extends (pos (suc n)) menu = click_secret-Extends n menu
  click_index-Extends (negsuc n) menu = elim (Bool-cases (n == 2 ^ 31 - 1)) [
    | inl e ↦ rw e tt
    | inr e ↦ rw e (same menu)
  ]

  click-Extends :
      (id : ℤ) (menu : ContextMenu) → Extends menu (click get_secrets get_secret hmac clock id menu)
  unfolding click
  click-Extends id menu = elim (Bool-cases (is_id_of menu_separator_id id)) [
    | inl e ↦ rw e (same menu)
    | inr e ↦ elim (Bool-cases (is_id_of menu_exit_id id)) [
      | inl f ↦ rw (e, f) (_, refl)
      | inr f ↦ elim (Bool-cases (is_id_of menu_update_id id)) [
        | inl g ↦ rw (e, f, g) (update_menu-Extends menu)
        | inr g ↦ rw (e, f, g) (click_index-Extends id menu)
      ]
    ]
  ]

  -- Every event keeps what has been sent.
  pub event-Extends :
      (id : ℤ) (event_id : MenuEvent) (menu : ContextMenu)
      → Extends menu (event get_secrets get_secret hmac clock id event_id menu)
  unfolding event
  event-Extends id clicked menu = click-Extends id menu
  event-Extends id hovered menu = same menu
