-- ===== src/Menu/Click/Codes.antt =====
-- notifier/mod.rs, `event`: a click on the entry of a secret puts its code on the clipboard.
use one_true_pairing.Common.{
  ℕ, suc, ◌+◌, ◌/◌, ◌^◌, ◌<◌, ◌≤◌, ◌≡◌, sym, ap, true, false, Option, none, some, List, arith, ◌==◌,
  ◌⊎◌, inl, inr, length, get_elem?, subst,
}
use one_true_pairing.Common.Int.{pos}
use one_true_pairing.Common.Bytes.{Bytes, is_utf8}
use one_true_pairing.Totp.Hotp.{Algorithm, totp}
use one_true_pairing.Totp.Hotp.Codes.{IsHmac, hotp_lt}
use one_true_pairing.Totp.Url.{
  TotpParameters, default_algorithm, default_digits, default_period_seconds, try_from_otpauth_url,
}
use one_true_pairing.Totp.Url.Valid.{IsDigits, IsPeriod, IsValid, try_from_otpauth_url-IsValid}
use one_true_pairing.Clipboard.State.{ClipboardMessage, copy}
use one_true_pairing.Menu.Layout.{menu_separator_id, menu_update_id, menu_exit_id}
use one_true_pairing.Menu.Click.{
  clicked, ContextMenu, send_message, unwrap_or, algorithm_of, format_code, returned, copy_code,
  use_parameters, use_secret, click_secret, click_index, click, event,
}
use one_true_pairing.Menu.Click.Format.{
  fixed_width, spelled, length-fixed_width, spelled-fixed_width, format_code_lem,
}

abbrev pub digits_of : TotpParameters → ℕ
digits_of params = unwrap_or default_digits params.digits

abbrev pub period_of : TotpParameters → ℕ
period_of params = unwrap_or default_period_seconds params.period_seconds

pub digits_bounds : (d : Option ℕ) → IsDigits d → (6 ≤ unwrap_or 6 d) × (unwrap_or 6 d ≤ 8)
digits_bounds none h = (omega arith, omega arith)
digits_bounds (some d) h = h

period_pos : (p : Option ℕ) → IsPeriod p → 0 < unwrap_or 30 p
period_pos none h = omega arith
period_pos (some p) (h, _) = h

digits_cases : (d : ℕ) → 6 ≤ d → d ≤ 8 → (d ≡ 6) ⊎ ((d ≡ 7) ⊎ (d ≡ 8))
digits_cases d lo hi = grind arith

text_lem :
    (digits code : ℕ)
    → 6 ≤ digits
    → digits ≤ 8
    → code < 10 ^ digits
    → format_code code digits ≡ fixed_width digits code
text_lem digits code lo hi h = elim (digits_cases digits lo hi) [
  | inl e ↦
      subst (λ d. code < 10 ^ d → format_code code d ≡ fixed_width d code) (sym e)
        (λ k. format_code_lem 5 code (omega (arith, k)) k) h
  | inr (inl e) ↦
      subst (λ d. code < 10 ^ d → format_code code d ≡ fixed_width d code) (sym e)
        (λ k. format_code_lem 6 code (omega (arith, k)) k) h
  | inr (inr e) ↦
      subst (λ d. code < 10 ^ d → format_code code d ≡ fixed_width d code) (sym e)
        (λ k. format_code_lem 7 code (omega (arith, k)) k) h
]

-- The message with a code of so many digits.
abbrev pub code_message : ℕ → ℕ → ClipboardMessage
code_message digits code = copy (fixed_width digits code)

module _ (get_secrets : Option (List (Bytes × Bytes))) (get_secret : Bytes → Option (Option Bytes))
    {hmac : Algorithm → Bytes → Bytes → Bytes} (h : IsHmac hmac) (unix_time : ℕ) where
  totp-some :
      (a : Algorithm) (key : Bytes) (period digits : ℕ)
      → 0 < period
      → 6 ≤ digits
      → digits ≤ 8
      → (code : ℕ) × (totp hmac a key unix_time period digits ≡ some code) × (code < 10 ^ digits)
  unfolding totp
  totp-some a key period digits p lo hi =
      let e : (period == 0) ≡ false = ground arith in
      let (code, f, b) = hotp_lt h a key (unix_time / period) digits lo hi in
      (code, rw (e, totp) f, b)

  pub copy_code_lem :
      (params : TotpParameters) (a : Algorithm) (menu : ContextMenu)
      → IsValid params
      → (code : ℕ) × (totp hmac a params.key unix_time (period_of params) (digits_of params)
          ≡ some code)
        × (copy_code get_secrets get_secret hmac (some unix_time) params a menu
            ≡ returned (send_message (code_message (digits_of params) code) menu))
        × (length (fixed_width (digits_of params) code) ≡ digits_of params)
        × (spelled 0 (fixed_width (digits_of params) code) ≡ code)
        × (code < 10 ^ digits_of params)
  unfolding copy_code
  copy_code_lem params a menu v =
      let (lo, hi) = digits_bounds params.digits v.digits in
      let p = period_pos params.period_seconds v.period in
      let (code, e, b) = totp-some a params.key (period_of params) (digits_of params) p lo hi in
      (
        code,
        e,
        rw (e, copy_code)
            (ap (λ t. returned (send_message (copy t) menu))
              (text_lem (digits_of params) code lo hi b)),
        length-fixed_width (digits_of params) code,
        spelled-fixed_width (digits_of params) code b,
        b,
      )

  -- A click on the entry number k + 1 of the menu, where the secret of the k-th name is read, is
  -- UTF-8, and is a URL with parameters and a known algorithm, sends the clipboard the code that
  -- totp gives for this moment, as text with exactly the wanted number of digits that spells the
  -- code, and changes nothing else, with an HMAC whose result has the digest's length.
  pub event-copies :
      (k : ℕ) (menu : ContextMenu) (name path secret : Bytes) (params : TotpParameters)
      (a : Algorithm)
      → k + 1 < menu_update_id
      → get_elem? menu.secret_name_to_path k ≡ some (name, path)
      → get_secret path ≡ some (some secret)
      → is_utf8 secret ≡ true
      → try_from_otpauth_url secret ≡ some params
      → algorithm_of (unwrap_or default_algorithm params.algorithm) ≡ some a
      → (code : ℕ) × (totp hmac a params.key unix_time (period_of params) (digits_of params)
          ≡ some code)
        × (event get_secrets get_secret hmac (some unix_time) (pos (suc k)) clicked menu
            ≡ returned (send_message (code_message (digits_of params) code) menu))
        × (length (fixed_width (digits_of params) code) ≡ digits_of params)
        × (spelled 0 (fixed_width (digits_of params) code) ≡ code)
  unfolding event click click_index click_secret use_secret use_parameters
  event-copies k menu name path secret params a b e_path e_secret e_utf8 e_params e_algorithm =
      let (code, e, f, l, s, _) =
        copy_code_lem params a menu (try_from_otpauth_url-IsValid secret params e_params) in
      let not_separator : (suc k == menu_separator_id) ≡ false = ground arith in
      let not_exit : (suc k == menu_exit_id) ≡ false = ground arith in
      let not_update : (suc k == menu_update_id) ≡ false = ground arith in
      (
        code,
        e,
        rw (not_separator, event)
            (rw (not_exit, not_update)
              (rw (e_path, click_secret)
                (rw e_secret
                  (rw (e_utf8, use_secret) (rw (e_params) (rw (e_algorithm, use_parameters) f)))))),
        l,
        s,
      )
