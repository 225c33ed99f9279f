-- ===== src/Tests/Menu.antt =====
-- The tray menu at concrete inputs.

use one_true_pairing.Common.{
  ℕ, ◌-◌, ◌^◌, ◌≡◌, ◌≢◌, refl, true, Option, none, some, List, [], ◌∷◌, arith, replicate,
  length-replicate,
}
use one_true_pairing.Common.Int.{pos, negsuc}
use one_true_pairing.Common.Bytes.{Bytes, codes, is_utf8, utf8_step}
use one_true_pairing.Totp.UrlDecode.{hex_to_nibble, urldecode}
use one_true_pairing.Totp.Base32.{
  decode_base32, charset_ok, in_charset, decode_chunks, chunk_bytes, accumulate, quintet,
}
use one_true_pairing.Totp.Hotp.{Algorithm, sha1, totp}
use one_true_pairing.Totp.Hotp.Codes.{IsHmac, output_size}
use one_true_pairing.Totp.Url.{
  TotpParameters, try_from_otpauth_url, strip_prefix, from_parts, process_properties, split,
  split_once, process_property, zv_to_string, set_property, bytes_eq, parse_unsigned, parse_digits,
  set_digits, set_period,
}
use one_true_pairing.Menu.Layout.{MenuLayout, flatten_entries, get_layout, get_property, value}
use one_true_pairing.Menu.Layout.Lookup.{entry_property, get_property-entry_property}
use one_true_pairing.Menu.Layout.Items.{IsDistinct, get_layout-IsDistinct}
use one_true_pairing.Menu.Click
use one_true_pairing.Menu.Click.{ContextMenu, send_message, returned, clicked, event, algorithm_of}
use one_true_pairing.Menu.Click.Codes.{code_message}
use one_true_pairing.Menu.Click.Shown.{names_of, event-shown}
use one_true_pairing.Menu.Click.Outcome.{Outcome, event-Outcome}

abbrev names : List Bytes
names = codes "bank" ∷ codes "mail" ∷ []

get_layout-IsDistinct_example :
    (top : MenuLayout) × (get_layout names (pos 0) (negsuc 0) [] ≡ some (0, top))
    × IsDistinct (flatten_entries top)
get_layout-IsDistinct_example = get_layout-IsDistinct names [] (negsuc 0) (omega arith)

get_property-entry_property_example :
    get_property names (pos 2) (codes "label")
    ≡ some (entry_property (codes "label") (codes "mail"))
get_property-entry_property_example =
    get_property-entry_property names 1 (codes "mail") (codes "label") (omega arith) refl

-- A function of the shape of an HMAC.
abbrev pub hmac : Algorithm → Bytes → Bytes → Bytes
hmac a key text = replicate (output_size a) 7

pub hmac-IsHmac : IsHmac hmac
hmac-IsHmac = record { length_hmac = λ a key text. length-replicate (output_size a) 7 }

abbrev pub secret_url : Bytes
secret_url = codes "otpauth://totp/a:b?secret=MZXW6YTB&digits=8"

abbrev pub secret_parameters : TotpParameters
secret_parameters = record {
  key = codes "fooba";
  url_issuer = some (codes "a");
  username = some (codes "b");
  attrib_issuer = none;
  algorithm = none;
  digits = some 8;
  period_seconds = none;
}

pub secret_url-parameters : try_from_otpauth_url secret_url ≡ some secret_parameters
unfolding try_from_otpauth_url strip_prefix from_parts process_properties split split_once
    process_property zv_to_string is_utf8 utf8_step urldecode set_property bytes_eq parse_unsigned
    parse_digits set_digits set_period hex_to_nibble decode_base32 charset_ok in_charset
    decode_chunks chunk_bytes accumulate quintet
secret_url-parameters = refl

pub secret_url-is_utf8 : is_utf8 secret_url ≡ true
unfolding is_utf8 utf8_step
secret_url-is_utf8 = refl

pub default_is_sha1 : algorithm_of (codes "SHA1") ≡ some sha1
unfolding algorithm_of bytes_eq
default_is_sha1 = refl

abbrev pub entries : List (Bytes × Bytes)
entries = (codes "bank", codes "/b/1") ∷ (codes "mail", codes "/b/2") ∷ []

abbrev pub menu : ContextMenu
menu = record { secret_name_to_path = entries; sent = []; menu_revision = 1; layouts_updated = [] }

new-menu : Click.new entries ≡ menu
unfolding Click.new
new-menu = refl

abbrev stored_secret : Bytes → Option (Option Bytes)
stored_secret path = some (some secret_url)

event-shown_example :
    (code : ℕ) × (get_property (names_of menu) (pos 2) (codes "label")
      ≡ some (value (codes "mail")))
    × (totp hmac sha1 (codes "fooba") 1000 30 8 ≡ some code)
    × (event (some []) stored_secret hmac (some 1000) (pos 2) clicked menu
        ≡ returned (send_message (code_message 8 code) menu))
event-shown_example =
    event-shown (some []) stored_secret {hmac = hmac} hmac-IsHmac 1000 menu 1 (codes "mail")
      (codes "/b/2") secret_url secret_parameters sha1 (omega arith) refl refl secret_url-is_utf8
      secret_url-parameters default_is_sha1

not_least : pos 1 ≢ negsuc (2 ^ 31 - 1)
not_least e = ground (arith, e)

event-Outcome_example :
    Outcome [] menu (event (some []) stored_secret hmac (some 1000) (pos 1) clicked menu)
event-Outcome_example =
    event-Outcome (some []) [] refl stored_secret {hmac = hmac} hmac-IsHmac 1000
      (λ path. secret_url-is_utf8) (pos 1) clicked menu not_least
