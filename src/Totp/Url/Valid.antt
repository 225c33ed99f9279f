-- ===== src/Totp/Url/Valid.antt =====
-- What holds of every result of `try_from_otpauth_url` of totp.rs.
use one_true_pairing.Common.{
  ℕ, ◌+◌, ◌-◌, ◌*◌, ◌^◌, ◌≤◌, ◌<◌, ◌≡◌, true, Option, none, some, List, [], ◌∷◌, arith, ◌==◌,
  Option-cases, inl, inr,
}
use one_true_pairing.Common.Bytes.{Bytes, codes, is_utf8}
use one_true_pairing.Totp.Url.{
  parse_digits, parse_unsigned, split_once, split, zv_to_string, TotpParameters, Properties,
  no_properties, set_property, process_property, process_properties, from_parts,
  try_from_otpauth_url, ◌>>=◌,
}
use one_true_pairing.Common.{Bool-cases}
use one_true_pairing.Totp.UrlDecode.{urldecode}
use one_true_pairing.Totp.Base32.{decode_base32}
use one_true_pairing.Totp.Url.{nonempty_text, strip_prefix}

abbrev pub IsDigits : Option ℕ → Type 0
IsDigits none = Unit
IsDigits (some d) = (6 ≤ d) × (d ≤ 8)

abbrev pub IsPeriod : Option ℕ → Type 0
IsPeriod none = Unit
IsPeriod (some p) = (0 < p) × (p < 2 ^ 64)

-- A text that is there is valid UTF-8, so that it is a Rust `String`.
abbrev pub IsString : Option Bytes → Type 0
IsString none = Unit
IsString (some s) = is_utf8 s ≡ true

pub record IsValid (p : TotpParameters) : Type 0 where
  pub digits : IsDigits p.digits
  pub period : IsPeriod p.period_seconds
  pub url_issuer : IsString p.url_issuer
  pub username : IsString p.username
  pub attrib_issuer : IsString p.attrib_issuer
  pub algorithm : IsString p.algorithm

record PropertiesValid (p : Properties) : Type 0 where
  digits : IsDigits p.digits
  period : IsPeriod p.period_seconds
  attrib_issuer : IsString p.attrib_issuer
  algorithm : IsString p.algorithm

abbrev AtMost : ℕ → Option ℕ → Type 0
AtMost max none = Unit
AtMost max (some n) = n ≤ max

abbrev AreValid : Option Properties → Type 0
AreValid none = Unit
AreValid (some ps) = PropertiesValid ps

parse_digits-AtMost : (max n : ℕ) (cs : Bytes) → n ≤ max → AtMost max (parse_digits max n cs)
unfolding parse_digits
parse_digits-AtMost max n [] b = b
parse_digits-AtMost max n (c ∷ cs) b =
    ground (arith, parse_digits-AtMost max (n * 10 + (c - b'0')) cs)

parse_unsigned-AtMost : (max : ℕ) (cs : Bytes) → AtMost max (parse_unsigned max cs)
unfolding parse_unsigned
parse_unsigned-AtMost max [] = tt
parse_unsigned-AtMost max (c ∷ []) = parse_digits-AtMost max 0 (c ∷ []) (omega arith)
parse_unsigned-AtMost max (c ∷ d ∷ cs) = elim (Bool-cases (c == b'+')) [
  | inl e ↦ rw e (parse_digits-AtMost max 0 (d ∷ cs) (omega arith))
  | inr e ↦ rw e (parse_digits-AtMost max 0 (c ∷ d ∷ cs) (omega arith))
]

set_property-Valid :
    (ps : Properties) (key value : Bytes)
    → PropertiesValid ps
    → is_utf8 value ≡ true
    → AreValid (set_property ps key value)
unfolding set_property
set_property-Valid ps key value v u =
    ground (arith, parse_unsigned-AtMost 255 value, parse_unsigned-AtMost (2 ^ 64 - 1) value)

zv_to_string-utf8 : (zv : Bytes) → IsString (zv_to_string zv)
unfolding zv_to_string
zv_to_string-utf8 zv = ground arith

process_property-Valid :
    (ps : Properties) (property_u : Bytes)
    → PropertiesValid ps
    → AreValid (process_property ps property_u)
unfolding process_property
process_property-Valid ps property_u v = parts (split_once b'=' property_u)
  where
    decoded :
        (key value : Option Bytes)
        → IsString value
        → AreValid (elim key [
          | none ↦ some ps
          | some k ↦ elim value [ none ↦ some ps | some w ↦ set_property ps k w ]
        ])
    decoded none value u = v
    decoded (some k) none u = v
    decoded (some k) (some w) u = set_property-Valid ps k w v u

    parts :
        (o : Option (Bytes × Bytes))
        → AreValid (elim o [
          | none ↦ some ps
          | some (key_urlencoded, value_urlencoded) ↦
              elim (zv_to_string (urldecode true key_urlencoded)) [
                | none ↦ some ps
                | some key ↦ elim (zv_to_string (urldecode true value_urlencoded)) [
                  | none ↦ some ps
                  | some value ↦ set_property ps key value
                ]
              ]
        ])
    parts none = v
    parts (some (k, w)) =
        decoded (zv_to_string (urldecode true k)) (zv_to_string (urldecode true w))
          (zv_to_string-utf8 _)

process_properties-Valid :
    (ps : Properties) (pieces : List Bytes)
    → PropertiesValid ps
    → AreValid (process_properties ps pieces)
unfolding process_properties
process_properties-Valid ps [] v = v
process_properties-Valid ps (p ∷ rest) v =
    after (process_property ps p) (process_property-Valid ps p v)
      (λ q. process_properties-Valid q rest)
  where
    after :
        (o : Option Properties)
        → AreValid o
        → ((q : Properties) → PropertiesValid q → AreValid (process_properties q rest))
        → AreValid (o >>= λ q. process_properties q rest)
    after none h ih = tt
    after (some q) h ih = ih q h

abbrev IsValidResult : Option TotpParameters → Type 0
IsValidResult none = Unit
IsValidResult (some p) = IsValid p

nonempty_text-IsString : (s : Bytes) → IsString (nonempty_text s)
nonempty_text-IsString [] = tt
nonempty_text-IsString (c ∷ cs) = zv_to_string-utf8 _

from_parts-Valid : (i u s : Bytes) → IsValidResult (from_parts i u s)
unfolding from_parts
from_parts-Valid i u s =
    looped (process_properties no_properties (split b'&' s))
      (process_properties-Valid no_properties _ start)
  where
    start : PropertiesValid no_properties
    start = record { digits = tt; period = tt; attrib_issuer = tt; algorithm = tt }

    built : Properties → Bytes → TotpParameters
    built ps key = record {
      key = key;
      url_issuer = nonempty_text i;
      username = nonempty_text u;
      attrib_issuer = ps.attrib_issuer;
      algorithm = ps.algorithm;
      digits = ps.digits;
      period_seconds = ps.period_seconds;
    }

    keyed :
        (ps : Properties)
        → PropertiesValid ps
        → (k : Option Bytes) → IsValidResult (k >>= λ key. some (built ps key))
    keyed ps v none = tt
    keyed ps v (some key) = record {
      digits = v.digits;
      period = v.period;
      url_issuer = nonempty_text-IsString i;
      username = nonempty_text-IsString u;
      attrib_issuer = v.attrib_issuer;
      algorithm = v.algorithm;
    }

    with_secret :
        (ps : Properties)
        → PropertiesValid ps
        → (secret : Option Bytes)
        → IsValidResult (secret >>= λ x. decode_base32 x >>= λ key. some (built ps key))
    with_secret ps v none = tt
    with_secret ps v (some x) = keyed ps v (decode_base32 x)

    looped :
        (o : Option Properties)
        → AreValid o
        → IsValidResult
            (o >>= λ ps. ps.secret >>= λ x. decode_base32 x >>= λ key. some (built ps key))
    looped none h = tt
    looped (some ps) h = with_secret ps h ps.secret

url-Valid : (url : Bytes) → IsValidResult (try_from_otpauth_url url)
unfolding try_from_otpauth_url
url-Valid url = elim (Option-cases (strip_prefix (codes "otpauth://totp/") url)) [
  | inl n ↦ rw n tt
  | inr (rest, e) ↦ rw e (from_parts-Valid _ _ _)
]

-- Every result of try_from_otpauth_url has 6 to 8 digits where it has digits, a period that is
-- neither 0 nor above a u64 where it has one, and texts that are valid UTF-8.
pub try_from_otpauth_url-IsValid :
    (url : Bytes) (p : TotpParameters) → try_from_otpauth_url url ≡ some p → IsValid p
try_from_otpauth_url-IsValid url p e = rw e at (url-Valid url)
