-- ===== src/Wlproto/Numerals.antt =====
-- wlproto/src/main.rs, `parse_u32_base_prefix`, and `from_str_radix` of the standard library.
pub mod Spelled
use Prim.Native.String.{String}
use one_true_pairing.Common.{
  ℕ, ◌+◌, ◌-◌, ◌*◌, ◌^◌, Bool, true, false, ◌&&◌, Option, none, some, List, [], ◌∷◌, ltb, leb, ◌==◌,
  if◌then◌else◌,
}
use one_true_pairing.Common.Bytes.{Bytes, codes}

-- `char::to_digit`
unfoldable pub to_digit : ℕ → ℕ → Option ℕ
to_digit radix c =
    let d =
      if leb b'0' c && leb c b'9'
      then c - b'0'
      else if leb b'a' c && leb c b'z'
      then c - b'a' + 10
      else if leb b'A' c && leb c b'Z'
      then c - b'A' + 10
      else radix in
    if ltb d radix then some d else none

-- The digits, with a failure at the first that is none, or that takes the value out of a `u32`.
unfoldable pub digits_value : ℕ → ℕ → Bytes → Option ℕ
digits_value radix n [] = some n
digits_value radix n (c ∷ cs) = elim (to_digit radix c) [
  | none ↦ none
  | some d ↦
      let rest = digits_value radix (n * radix + d) cs in
      if ltb (n * radix + d) (2 ^ 32) then rest else none
]

-- `u32::from_str_radix`: one plus sign may stand in front of a digit.
unfoldable pub from_str_radix : ℕ → Bytes → Option ℕ
unfolding digits_value
from_str_radix radix [] = none
from_str_radix radix (c ∷ []) = digits_value radix 0 (c ∷ [])
from_str_radix radix (c ∷ d ∷ cs) =
    if c == b'+' then digits_value radix 0 (d ∷ cs) else digits_value radix 0 (c ∷ d ∷ cs)

unfoldable pub base_prefix : Bytes → Option ℕ
unfolding from_str_radix
base_prefix (z ∷ x ∷ rest) =
    if z == b'0' && x == b'x'
    then from_str_radix 16 rest
    else if z == b'0' && x == b'b'
    then from_str_radix 2 rest
    else from_str_radix 10 (z ∷ x ∷ rest)
base_prefix int_str = from_str_radix 10 int_str

-- The prefixes are `0x` and `0b`.
unfoldable pub parse_u32_base_prefix : String → Option ℕ
parse_u32_base_prefix int_str = base_prefix (codes int_str)

-- `parse::<u32>`
unfoldable pub parse_u32 : String → Option ℕ
parse_u32 s = from_str_radix 10 (codes s)
