-- ===== src/Totp/Base32/Encode.antt =====
-- RFC 4648 base-32 without padding, and that `decode_base32` of totp.rs inverts it.
use one_true_pairing.Common.{
  ℕ, ◌+◌, ◌-◌, ◌*◌, ◌/◌, ◌%◌, ◌^◌, ◌<◌, ◌≡◌, refl, ap, ◌∙◌, true, some, [], ◌∷◌, ◌++◌, arith, ltb,
  if◌then◌else◌, All,
}
use one_true_pairing.Common.Bytes.{Bytes, IsByte}
use one_true_pairing.Totp.Base32.{
  in_charset, charset_ok, quintet, shift_in, accumulate, chunk_bytes, decode_chunks, decode_base32,
}
use one_true_pairing.Common.{zero, suc}
use native.Mathlib.Nat.{pow-suc, div-div-eq-div-mul, div-le_self, div-eq_of_lt}
use one_true_pairing.Common.{sym, append-nil}

-- The alphabet: A to Z for 0 to 25, 2 to 7 for 26 to 31.
unfoldable pub letter : ℕ → ℕ
letter q = if ltb q 26 then q + b'A' else q - 26 + b'2'

quintet-letter : (q : ℕ) → q < 32 → quintet (letter q) ≡ q
unfolding quintet letter
quintet-letter q h = ground arith

in_charset-letter : (q : ℕ) → q < 32 → in_charset (letter q) ≡ true
unfolding in_charset letter
in_charset-letter q h = ground arith

-- The letter of the five bits of `v` above the `k` lowest fives.
abbrev five : ℕ → ℕ → ℕ
five v k = letter (v / 32 ^ k % 32)

-- The letters of the `k` lowest fives, the highest first.
abbrev fives : ℕ → ℕ → Bytes
fives v zero = []
fives v (suc k) = five v k ∷ fives v k

-- Eight letters for five bytes; two, four, five or seven for one to four bytes at the end.
unfoldable pub encode_base32 : Bytes → Bytes
encode_base32 [] = []
encode_base32 (a ∷ []) = fives (a * 4) 2
encode_base32 (a ∷ b ∷ []) = fives ((a * 256 + b) * 16) 4
encode_base32 (a ∷ b ∷ c ∷ []) = fives (((a * 256 + b) * 256 + c) * 2) 5
encode_base32 (a ∷ b ∷ c ∷ d ∷ []) = fives ((((a * 256 + b) * 256 + c) * 256 + d) * 8) 7
encode_base32 (a ∷ b ∷ c ∷ d ∷ e ∷ rest) =
    fives ((((a * 256 + b) * 256 + c) * 256 + d) * 256 + e) 8 ++ encode_base32 rest

shift_in-letter : (x y : ℕ) → x ≡ y / 32 → y < 2 ^ 40 → shift_in x (letter (y % 32)) ≡ y
shift_in-letter x y e h = omega (arith, quintet-letter (y % 32) (omega arith))

div-pow : (v k : ℕ) → v / 32 ^ suc k ≡ v / 32 ^ k / 32
div-pow v k = rw pow-suc (sym (div-div-eq-div-mul v (32 ^ k) 32))

accumulate-fives : (v k : ℕ) → v < 2 ^ 40 → accumulate (v / 32 ^ k) (fives v k) ≡ v
unfolding accumulate
accumulate-fives v zero h = (omega arith)
accumulate-fives v (suc k) h =
    ap (λ x. accumulate x (fives v k))
      (shift_in-letter (v / 32 ^ suc k) (v / 32 ^ k) (div-pow v k)
        (omega (arith, div-le_self v (32 ^ k))))
    ∙ accumulate-fives v k h

value-fives : (v k : ℕ) → v < 2 ^ 40 → v < 32 ^ k → accumulate 0 (fives v k) ≡ v
value-fives v k h l = let e : v / 32 ^ k ≡ 0 = div-eq_of_lt l in rw e at (accumulate-fives v k h)

charset_ok-fives :
    (v k : ℕ) (bs : Bytes) → charset_ok bs ≡ true → charset_ok (fives v k ++ bs) ≡ true
unfolding charset_ok
charset_ok-fives v zero bs h = h
charset_ok-fives v (suc k) bs h =
    rw (in_charset-letter (v / 32 ^ k % 32) (omega arith)) (charset_ok-fives v k bs h)

charset_ok-nil : charset_ok [] ≡ true
unfolding charset_ok
charset_ok-nil = refl

charset_ok-all : (v k : ℕ) → charset_ok (fives v k) ≡ true
charset_ok-all v k = rw append-nil at (charset_ok-fives v k [] charset_ok-nil)

charset_ok-encode : (bs : Bytes) → charset_ok (encode_base32 bs) ≡ true
unfolding encode_base32
charset_ok-encode [] = charset_ok-nil
charset_ok-encode (a ∷ []) = charset_ok-all (a * 4) 2
charset_ok-encode (a ∷ b ∷ []) = charset_ok-all _ 4
charset_ok-encode (a ∷ b ∷ c ∷ []) = charset_ok-all _ 5
charset_ok-encode (a ∷ b ∷ c ∷ d ∷ []) = charset_ok-all _ 7
charset_ok-encode (a ∷ b ∷ c ∷ d ∷ e ∷ rest) =
    charset_ok-fives ((((a * 256 + b) * 256 + c) * 256 + d) * 256 + e) 8 (encode_base32 rest)
      (charset_ok-encode rest)

decode_chunks-encode : (bs : Bytes) → All IsByte bs → decode_chunks (encode_base32 bs) ≡ some bs
unfolding encode_base32 decode_chunks chunk_bytes
decode_chunks-encode [] h = refl
decode_chunks-encode (a ∷ []) h =
    rw (value-fives (a * 4) 2 (omega arith) (omega arith)) (ground arith)
decode_chunks-encode (a ∷ b ∷ []) h =
    rw (value-fives ((a * 256 + b) * 16) 4 (omega arith) (omega arith)) (ground arith)
decode_chunks-encode (a ∷ b ∷ c ∷ []) h =
    rw (value-fives (((a * 256 + b) * 256 + c) * 2) 5 (omega arith) (omega arith)) (ground arith)
decode_chunks-encode (a ∷ b ∷ c ∷ d ∷ []) h =
    rw (value-fives ((((a * 256 + b) * 256 + c) * 256 + d) * 8) 7 (omega arith) (omega arith))
      (ground arith)
decode_chunks-encode (a ∷ b ∷ c ∷ d ∷ e ∷ rest) h = rw (decode_chunks-encode rest h.1.1.1.1.1) (
    rw (value-fives ((((a * 256 + b) * 256 + c) * 256 + d) * 256 + e) 8 (omega arith) (omega arith))
      (ground arith))

-- Every byte string, of any length, is given back by decode_base32 from its base-32 text without
-- padding (RFC 4648).
pub decode_base32-encode_base32 :
    (bs : Bytes) → All IsByte bs → decode_base32 (encode_base32 bs) ≡ some bs
unfolding decode_base32
decode_base32-encode_base32 bs h = rw (charset_ok-encode bs) (decode_chunks-encode bs h)
