-- ===== src/Tests/Totp.antt =====
-- totp.rs at concrete inputs: RFC 4648, and an authenticator URL.
use one_true_pairing.Common.{
  ℕ, ◌^◌, ◌<◌, ◌≡◌, refl, true, none, some, arith, replicate, length-replicate, All,
}
use one_true_pairing.Common.Bytes.{Bytes, IsByte, codes, is_utf8, utf8_step}
use one_true_pairing.Totp.UrlDecode.{hex_to_nibble, urldecode}
use one_true_pairing.Totp.UrlDecode.Escapes.{
  Escaped, done, literal, space, escape, decimal, urldecode-Escaped,
}
use one_true_pairing.Totp.Base32.{
  decode_base32, charset_ok, in_charset, decode_chunks, chunk_bytes, accumulate, quintet,
}
use one_true_pairing.Totp.Base32.Encode.{encode_base32, decode_base32-encode_base32}
use one_true_pairing.Totp.Hotp.{Algorithm, sha1, hotp}
use one_true_pairing.Totp.Hotp.Codes.{IsHmac, output_size, hotp_lt}
use one_true_pairing.Totp.Url.{
  TotpParameters, try_from_otpauth_url, strip_prefix, from_parts, process_properties, split,
  split_once, process_property, zv_to_string, set_property, bytes_eq, parse_unsigned, parse_digits,
  set_digits, set_period,
}
use one_true_pairing.Totp.Url.Valid.{IsValid, try_from_otpauth_url-IsValid}

-- "foobar" of RFC 4648, without its padding
foobar : decode_base32 (codes "MZXW6YTBOI") ≡ some (codes "foobar")
unfolding decode_base32 charset_ok in_charset decode_chunks chunk_bytes accumulate quintet
foobar = refl

small : All IsByte (codes "foobar")
small = ground arith

decode_base32-encode_base32_example :
    decode_base32 (encode_base32 (codes "foobar")) ≡ some (codes "foobar")
decode_base32-encode_base32_example = decode_base32-encode_base32 (codes "foobar") small

escaped : Escaped true (codes "a+%40") (codes "a @")
escaped = literal (ground arith) refl (
    space refl (
      escape {hi = 4} {lo = 0} (decimal (omega arith) refl) (decimal (omega arith) refl) refl done))

urldecode-Escaped_example : urldecode true (codes "a+%40") ≡ codes "a @"
urldecode-Escaped_example = urldecode-Escaped true escaped

-- A function of the shape of an HMAC.
abbrev constant_hmac : Algorithm → Bytes → Bytes → Bytes
constant_hmac a key text = replicate (output_size a) 7

constant_hmac-IsHmac : IsHmac constant_hmac
constant_hmac-IsHmac = record { length_hmac = λ a key text. length-replicate (output_size a) 7 }

hotp_lt_example :
    (code : ℕ) × (hotp constant_hmac sha1 (codes "key") 5 6 ≡ some code) × (code < 10 ^ 6)
hotp_lt_example =
    hotp_lt {hmac = constant_hmac} constant_hmac-IsHmac sha1 (codes "key") 5 6 (omega arith)
      (omega arith)

abbrev url : Bytes
url = codes "otpauth://totp/a:b?secret=MZXW6YTB&digits=8"

abbrev parameters : TotpParameters
parameters = record {
  key = codes "fooba";
  url_issuer = some (codes "a");
  username = some (codes "b");
  attrib_issuer = none;
  algorithm = none;
  digits = some 8;
  period_seconds = none;
}

url-parameters : try_from_otpauth_url url ≡ some parameters
unfolding try_from_otpauth_url strip_prefix from_parts process_properties split split_once
    process_property zv_to_string is_utf8 utf8_step urldecode set_property bytes_eq parse_unsigned
    parse_digits set_digits set_period hex_to_nibble decode_base32 charset_ok in_charset
    decode_chunks chunk_bytes accumulate quintet
url-parameters = refl

try_from_otpauth_url-IsValid_example : IsValid parameters
try_from_otpauth_url-IsValid_example = try_from_otpauth_url-IsValid url parameters url-parameters
