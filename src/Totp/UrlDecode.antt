-- ===== src/Totp/UrlDecode.antt =====
-- one-true-pairing/src/totp.rs, `urldecode` and `hex_to_nibble`.
pub mod Escapes
use one_true_pairing.Common.{
  ℕ, ◌+◌, ◌-◌, ◌*◌, Bool, true, false, ◌&&◌, List, [], ◌∷◌, leb, ◌==◌, if◌then◌else◌,
}
use one_true_pairing.Common.Bytes.{Bytes}

-- 0xFF for what is no hexadecimal digit.
unfoldable pub hex_to_nibble : ℕ → ℕ
hex_to_nibble hex =
    if leb b'0' hex && leb hex b'9'
    then hex - b'0'
    else if leb b'A' hex && leb hex b'F'
    then hex - b'A' + 10
    else if leb b'a' hex && leb hex b'f'
    then hex - b'a' + 10
    else 0xff

-- A byte that is no `%`: pluses become spaces where `plus` says so.
abbrev pub plain : Bool → ℕ → ℕ
plain plus b = if b == b'+' && plus then b' ' else b

-- The loop over `iter`. An escape takes one or two more bytes from the iterator; a broken one is
-- kept with all that it has taken. `(top_nibble << 4) | bottom_nibble` is a sum: the low nibble is
-- below 16.
unfoldable pub urldecode : Bool → Bytes → Bytes
unfolding hex_to_nibble
urldecode plus [] = []
urldecode plus (b ∷ []) = (if b == b'%' then b'%' else plain plus b) ∷ []
urldecode plus (b ∷ top ∷ []) = elim (b == b'%') [
  | true ↦ b'%' ∷ top ∷ []
  | false ↦ plain plus b ∷ urldecode plus (top ∷ [])
]
urldecode plus (b ∷ top ∷ bottom ∷ rest) = elim (b == b'%') [
  | true ↦ elim (hex_to_nibble top == 0xff) [
    | true ↦ b'%' ∷ top ∷ urldecode plus (bottom ∷ rest)
    | false ↦ elim (hex_to_nibble bottom == 0xff) [
      | true ↦ b'%' ∷ top ∷ bottom ∷ urldecode plus rest
      | false ↦ (hex_to_nibble top * 16 + hex_to_nibble bottom) ∷ urldecode plus rest
    ]
  ]
  | false ↦ plain plus b ∷ urldecode plus (top ∷ bottom ∷ rest)
]
