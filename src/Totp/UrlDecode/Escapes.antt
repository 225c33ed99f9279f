-- ===== src/Totp/UrlDecode/Escapes.antt =====
-- What `urldecode` of totp.rs returns on escaped text, and how long its result is.
use one_true_pairing.Common.{
  ℕ, ◌+◌, ◌*◌, ◌≤◌, ◌<◌, ◌≡◌, ◌≢◌, refl, ◌∙◌, Bool, true, false, ◌&&◌, [], ◌∷◌, arith, ◌==◌, length,
}
use one_true_pairing.Common.Bytes.{Bytes}
use one_true_pairing.Totp.UrlDecode.{hex_to_nibble, plain, urldecode}

-- The byte is a hexadecimal digit for `n`: `0` to `9`, or `a` to `f` or `A` to `F` for 10 to 15.
pub data IsHexDigit (n h : ℕ) : Type 0 where
  decimal : n < 10 → h ≡ b'0' + n → IsHexDigit n h
  lower : 10 ≤ n → n < 16 → h + 10 ≡ b'a' + n → IsHexDigit n h
  upper : 10 ≤ n → n < 16 → h + 10 ≡ b'A' + n → IsHexDigit n h

-- `Escaped plus src bs`: in `src` each byte of `bs` stands as itself, as `%` and two hexadecimal
-- digits, or, for a space where `plus` is set, as `+`.
pub data Escaped (plus : Bool) : Bytes → Bytes → Type 0 where
  done : Escaped plus [] []
  literal :
      {b : ℕ} {src bs : Bytes}
      → b ≢ b'%'
      → (b == b'+' && plus) ≡ false
      → Escaped plus src bs
      → Escaped plus (b ∷ src) (b ∷ bs)
  space :
      {src bs : Bytes} → plus ≡ true → Escaped plus src bs → Escaped plus (b'+' ∷ src) (b' ' ∷ bs)
  escape :
      {hi lo h l b : ℕ} {src bs : Bytes}
      → IsHexDigit hi h
      → IsHexDigit lo l
      → b ≡ hi * 16 + lo
      → Escaped plus src bs
      → Escaped plus (b'%' ∷ h ∷ l ∷ src) (b ∷ bs)

hex_to_nibble-IsHexDigit : (n h : ℕ) → IsHexDigit n h → (hex_to_nibble h ≡ n) × (n < 16)
unfolding hex_to_nibble
hex_to_nibble-IsHexDigit n h (decimal l e) = (ground arith, omega arith)
hex_to_nibble-IsHexDigit n h (lower m l e) = (ground arith, omega arith)
hex_to_nibble-IsHexDigit n h (upper m l e) = (ground arith, omega arith)

urldecode-nil : (plus : Bool) → urldecode plus [] ≡ []
unfolding urldecode
urldecode-nil plus = refl

urldecode-plain :
    (plus : Bool) (b : ℕ) (src : Bytes)
    → b ≢ b'%'
    → urldecode plus (b ∷ src) ≡ plain plus b ∷ urldecode plus src
unfolding urldecode
urldecode-plain plus b [] h = ground arith
urldecode-plain plus b (t ∷ []) h = ground arith
urldecode-plain plus b (t ∷ u ∷ src) h = ground arith

urldecode-escape :
    (plus : Bool) (hi lo h l : ℕ) (src : Bytes)
    → IsHexDigit hi h
    → IsHexDigit lo l
    → urldecode plus (b'%' ∷ h ∷ l ∷ src) ≡ (hi * 16 + lo) ∷ urldecode plus src
unfolding urldecode
urldecode-escape plus hi lo h l src p q =
    ground (arith, hex_to_nibble-IsHexDigit hi h p, hex_to_nibble-IsHexDigit lo l q)

-- Text in which every byte is written as itself, as an escape with two hexadecimal digits, 0 to 9,
-- a to f or A to F, or, for a space where pluses count, as a plus, decodes to these bytes.
pub urldecode-Escaped :
    (plus : Bool) {src bs : Bytes} → Escaped plus src bs → urldecode plus src ≡ bs
urldecode-Escaped plus done = urldecode-nil plus
urldecode-Escaped plus (literal {b} {src} {bs} n p e) =
    rw (urldecode-plain plus b src n) (rw (p, urldecode-Escaped plus e))
urldecode-Escaped plus (space {src} {bs} p e) =
    urldecode-plain plus b'+' src (omega arith) ∙ ground (arith, urldecode-Escaped plus e)
urldecode-Escaped plus (escape {hi} {lo} {h} {l} {b} {src} {bs} p q r e) =
    rw (urldecode-escape plus hi lo h l src p q) (rw (r, urldecode-Escaped plus e))

-- The result of urldecode is never longer than the text.
pub length-urldecode : (plus : Bool) (src : Bytes) → length (urldecode plus src) ≤ length src
unfolding urldecode
length-urldecode plus [] = omega arith
length-urldecode plus (b ∷ []) = omega arith
length-urldecode plus (b ∷ t ∷ []) = ground (arith, length-urldecode plus (t ∷ []))
length-urldecode plus (b ∷ t ∷ u ∷ src) = ground (
  arith,
  length-urldecode plus (t ∷ u ∷ src),
  length-urldecode plus (u ∷ src),
  length-urldecode plus src,
)
