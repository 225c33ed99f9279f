-- ===== src/Totp/Url.antt =====
-- one-true-pairing/src/totp.rs, `TotpParameters::try_from_otpauth_url`.
pub mod Valid
use one_true_pairing.Common.{
  ℕ, zero, suc, ◌+◌, ◌-◌, ◌*◌, ◌^◌, Bool, true, false, ◌&&◌, ◌||◌, Option, none, some, List, [],
  ◌∷◌, ◌++◌, ltb, leb, ◌==◌, if◌then◌else◌, length,
}
use one_true_pairing.Common.Bytes.{Bytes, codes, is_utf8}
use one_true_pairing.Totp.UrlDecode.{urldecode}
use one_true_pairing.Totp.Base32.{decode_base32}

unfoldable pub bytes_eq : Bytes → Bytes → Bool
bytes_eq [] [] = true
bytes_eq (x ∷ xs) (y ∷ ys) = x == y && bytes_eq xs ys
bytes_eq _ _ = false

-- `str::strip_prefix`
unfoldable pub strip_prefix : Bytes → Bytes → Option Bytes
strip_prefix [] s = some s
strip_prefix (p ∷ ps) [] = none
strip_prefix (p ∷ ps) (c ∷ cs) = if p == c then strip_prefix ps cs else none

abbrev pub cons_first : ℕ → Option (Bytes × Bytes) → Option (Bytes × Bytes)
cons_first c none = none
cons_first c (some (a, b)) = some (c ∷ a, b)

-- `str::split_once`: before and after the first separator.
unfoldable pub split_once : ℕ → Bytes → Option (Bytes × Bytes)
split_once sep [] = none
split_once sep (c ∷ cs) = if c == sep then some ([], cs) else cons_first c (split_once sep cs)

abbrev pub cons_piece : ℕ → List Bytes → List Bytes
cons_piece c [] = (c ∷ []) ∷ []
cons_piece c (piece ∷ pieces) = (c ∷ piece) ∷ pieces

-- `str::split`: one piece at least.
unfoldable pub split : ℕ → Bytes → List Bytes
split sep [] = [] ∷ []
split sep (c ∷ cs) = let rest = split sep cs in if c == sep then [] ∷ rest else cons_piece c rest

-- `unwrap_or((s, ""))`
abbrev pub or_whole : Bytes → Option (Bytes × Bytes) → Bytes × Bytes
or_whole s none = (s, [])
or_whole s (some p) = p

-- The digits of `str::parse`, with a failure as soon as the value is above `max`.
unfoldable pub parse_digits : ℕ → ℕ → Bytes → Option ℕ
parse_digits max n [] = some n
parse_digits max n (c ∷ cs) =
    let n' = n * 10 + (c - b'0') in
    let rest = parse_digits max n' cs in
    if leb b'0' c && leb c b'9' then (if ltb max n' then none else rest) else none

-- `str::parse` for an unsigned type: a plus sign may stand in front of the digits.
unfoldable pub parse_unsigned : ℕ → Bytes → Option ℕ
unfolding parse_digits
parse_unsigned max [] = none
parse_unsigned max (c ∷ []) = parse_digits max 0 (c ∷ [])
parse_unsigned max (c ∷ d ∷ cs) =
    if c == b'+' then parse_digits max 0 (d ∷ cs) else parse_digits max 0 (c ∷ d ∷ cs)

unfoldable pub zv_to_string : Bytes → Option Bytes
zv_to_string zv = if is_utf8 zv then some zv else none

pub record TotpParameters : Type 0 where
  pub key : Bytes
  pub url_issuer : Option Bytes
  pub username : Option Bytes
  pub attrib_issuer : Option Bytes
  pub algorithm : Option Bytes
  pub digits : Option ℕ
  pub period_seconds : Option ℕ

abbrev pub default_algorithm : Bytes
default_algorithm = codes "SHA1"

abbrev pub default_digits : ℕ
default_digits = 6

abbrev pub default_period_seconds : ℕ
default_period_seconds = 30

-- The variables of the loop over the properties.
pub record Properties : Type 0 where
  pub secret : Option Bytes
  pub attrib_issuer : Option Bytes
  pub algorithm : Option Bytes
  pub digits : Option ℕ
  pub period_seconds : Option ℕ

abbrev pub no_properties : Properties
no_properties = record {
  secret = none;
  attrib_issuer = none;
  algorithm = none;
  digits = none;
  period_seconds = none;
}

infixl 5 ◌>>=◌
abbrev pub ◌>>=◌ {ℓ κ} : {A : Type ℓ} {B : Type κ} → Option A → (A → Option B) → Option B
none >>= f = none
some a >>= f = f a

unfoldable pub set_digits : Properties → Bytes → Option Properties
set_digits ps value = do
  d ← parse_unsigned 255 value
  if ltb d 6 || ltb 8 d then none else some (record ps { digits = some d })

unfoldable pub set_period : Properties → Bytes → Option Properties
set_period ps value = do
  p ← parse_unsigned (2 ^ 64 - 1) value
  if p == 0 then none else some (record ps { period_seconds = some p })

-- The ladder over the property's key. None is `return None`.
unfoldable pub set_property : Properties → Bytes → Bytes → Option Properties
unfolding set_digits set_period
set_property ps key value =
    if bytes_eq key (codes "secret")
    then some (record ps { secret = some value })
    else if bytes_eq key (codes "issuer")
    then some (record ps { attrib_issuer = some value })
    else if bytes_eq key (codes "algorithm")
    then some (record ps { algorithm = some value })
    else if bytes_eq key (codes "digits")
    then set_digits ps value
    else if bytes_eq key (codes "period")
    then set_period ps value
    else some ps

-- A property with no `=`, or that does not decode to UTF-8, is passed over by `continue`.
unfoldable pub process_property : Properties → Bytes → Option Properties
process_property ps property_u = elim (split_once b'=' property_u) [
  | none ↦ some ps
  | some (key_u, value_u) ↦ elim (zv_to_string (urldecode true key_u)) [
    | none ↦ some ps
    | some key ↦ elim (zv_to_string (urldecode true value_u)) [
      | none ↦ some ps
      | some value ↦ set_property ps key value
    ]
  ]
]

unfoldable pub process_properties : Properties → List Bytes → Option Properties
process_properties ps [] = some ps
process_properties ps (p ∷ rest) = do ps' ← process_property ps p; process_properties ps' rest

abbrev pub nonempty_text : Bytes → Option Bytes
nonempty_text [] = none
nonempty_text (c ∷ cs) = zv_to_string (urldecode false (c ∷ cs))

-- From the label and the properties on.
unfoldable pub from_parts : Bytes → Bytes → Bytes → Option TotpParameters
from_parts url_issuer_u username_u params_str_u = do
  ps ← process_properties no_properties (split b'&' params_str_u)
  actual_secret ← ps.secret
  key ← decode_base32 actual_secret
  some (record {
    key = key;
    url_issuer = nonempty_text url_issuer_u;
    username = nonempty_text username_u;
    attrib_issuer = ps.attrib_issuer;
    algorithm = ps.algorithm;
    digits = ps.digits;
    period_seconds = ps.period_seconds;
  })

unfoldable pub try_from_otpauth_url : Bytes → Option TotpParameters
try_from_otpauth_url url = do
  prefixless_u ← strip_prefix (codes "otpauth://totp/") url
  let (issuer_username_u, params_str_u) = or_whole prefixless_u (split_once b'?' prefixless_u)
  let (url_issuer_u, username_u) = or_whole issuer_username_u (split_once b':' issuer_username_u)
  from_parts url_issuer_u username_u params_str_u
