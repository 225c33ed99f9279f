-- ===== src/Wlproto/Numerals/Spelled.antt =====
-- Numerals of any length, and the numbers that they stand for.
use Prim.Native.String.{String}
use native.Mathlib.Nat.{le-mul_of_pos_right}
use one_true_pairing.Common.{
  ℕ, ◌+◌, ◌*◌, ◌^◌, ◌<◌, ◌≤◌, ◌≡◌, refl, some, [], ◌∷◌, arith, lt→ltb, ◌==◌, false,
}
use one_true_pairing.Common.Bytes.{Bytes, codes}
use one_true_pairing.Wlproto.Numerals.{
  to_digit, digits_value, from_str_radix, base_prefix, parse_u32_base_prefix, parse_u32,
}

-- The byte is the digit `d`: `0` to `9`, or a letter of either case from 10 on.
pub data IsDigit (d c : ℕ) : Type 0 where
  decimal : d < 10 → c ≡ b'0' + d → IsDigit d c
  lower : 10 ≤ d → d < 36 → c + 10 ≡ b'a' + d → IsDigit d c
  upper : 10 ≤ d → d < 36 → c + 10 ≡ b'A' + d → IsDigit d c

-- Digits that follow a number `n`, and the number that all of them stand for.
pub data IsContinued (radix : ℕ) : ℕ → Bytes → ℕ → Type 0 where
  done : {n : ℕ} → IsContinued radix n [] n
  digit :
      {n d c v : ℕ} {cs : Bytes}
      → d < radix
      → IsDigit d c
      → IsContinued radix (n * radix + d) cs v
      → IsContinued radix n (c ∷ cs) v

-- A digit and more of them.
pub data IsNumeral (radix : ℕ) : Bytes → ℕ → Type 0 where
  numeral : {c v : ℕ} {cs : Bytes} → IsContinued radix 0 (c ∷ cs) v → IsNumeral radix (c ∷ cs) v

-- A decimal numeral, or a hexadecimal or binary one behind its prefix.
pub data IsPrefixed : Bytes → ℕ → Type 0 where
  plain : {cs : Bytes} {v : ℕ} → IsNumeral 10 cs v → IsPrefixed cs v
  hexadecimal : {cs : Bytes} {v : ℕ} → IsNumeral 16 cs v → IsPrefixed (b'0' ∷ b'x' ∷ cs) v
  binary : {cs : Bytes} {v : ℕ} → IsNumeral 2 cs v → IsPrefixed (b'0' ∷ b'b' ∷ cs) v

module _ (radix : ℕ) (r : 2 ≤ radix) (r36 : radix ≤ 36) where
  to_digit-IsDigit : (d c : ℕ) → d < radix → IsDigit d c → to_digit radix c ≡ some d
  unfolding to_digit
  to_digit-IsDigit d c l (decimal h e) = ground arith
  to_digit-IsDigit d c l (lower g h e) = ground arith
  to_digit-IsDigit d c l (upper g h e) = ground arith

  le-IsContinued : {n v : ℕ} {cs : Bytes} → IsContinued radix n cs v → n ≤ v
  le-IsContinued done = omega arith
  le-IsContinued (digit {n} {d} l i k) =
      omega (arith, le-IsContinued k, le-mul_of_pos_right {m = radix} n (omega arith))

  digits_value-IsContinued :
      {n v : ℕ} {cs : Bytes}
      → v < 2 ^ 32
      → IsContinued radix n cs v
      → digits_value radix n cs ≡ some v
  unfolding digits_value
  digits_value-IsContinued h done = refl
  digits_value-IsContinued h (digit {n} {d} {c} {v} {cs} l i k) =
      let small = lt→ltb (n * radix + d) (2 ^ 32) (omega (arith, h, le-IsContinued k)) in
      rw (to_digit-IsDigit d c l i, digits_value) (rw small (digits_value-IsContinued h k))

  digits_value-IsNumeral :
      {v : ℕ} {cs : Bytes} → v < 2 ^ 32 → IsNumeral radix cs v → digits_value radix 0 cs ≡ some v
  digits_value-IsNumeral h (numeral k) = digits_value-IsContinued h k

  not_plus : (d c : ℕ) → IsDigit d c → (c == b'+') ≡ false
  not_plus d c (decimal h e) = ground arith
  not_plus d c (lower g h e) = ground arith
  not_plus d c (upper g h e) = ground arith

  from_str_radix-IsNumeral :
      {v : ℕ} {cs : Bytes} → v < 2 ^ 32 → IsNumeral radix cs v → from_str_radix radix cs ≡ some v
  unfolding from_str_radix
  from_str_radix-IsNumeral h (numeral {cs = []} k) = digits_value-IsNumeral h (numeral k)
  from_str_radix-IsNumeral h (numeral {cs = c' ∷ cs} (digit {d = d} {c = c} l i k)) =
      rw (not_plus d c i) (digits_value-IsNumeral h (numeral (digit l i k)))

-- A decimal digit is no letter of a prefix.
no_prefix : (d c : ℕ) → d < 10 → IsDigit d c → ((c == b'x') ≡ false) × ((c == b'b') ≡ false)
no_prefix d c l (decimal h e) = (ground arith, ground arith)
no_prefix d c l (lower g h e) = absurd (omega arith)
no_prefix d c l (upper g h e) = absurd (omega arith)

base_prefix-plain : {v : ℕ} {cs : Bytes} → v < 2 ^ 32 → IsNumeral 10 cs v → base_prefix cs ≡ some v
unfolding base_prefix
base_prefix-plain h (numeral {cs = []} k) =
    from_str_radix-IsNumeral 10 (omega arith) (omega arith) h (numeral k)
base_prefix-plain h (numeral {c = c} {cs = c' ∷ cs} (digit l i (digit {d = d'} l' i' k))) =
    let (x, b) = no_prefix d' c' l' i' in
    let e =
      from_str_radix-IsNumeral 10 (omega arith) (omega arith) h
        (numeral (digit l i (digit l' i' k))) in
    ground (arith, x, b, e)

pub parse_u32-IsNumeral :
    (s : String) (v : ℕ) → v < 2 ^ 32 → IsNumeral 10 (codes s) v → parse_u32 s ≡ some v
unfolding parse_u32
parse_u32-IsNumeral s v h k = from_str_radix-IsNumeral 10 (omega arith) (omega arith) h k

base_prefix-IsPrefixed :
    {cs : Bytes} {v : ℕ} → v < 2 ^ 32 → IsPrefixed cs v → base_prefix cs ≡ some v
unfolding base_prefix
base_prefix-IsPrefixed h (plain k) = base_prefix-plain h k
base_prefix-IsPrefixed h (hexadecimal k) =
    from_str_radix-IsNumeral 16 (omega arith) (omega arith) h k
base_prefix-IsPrefixed h (binary k) = from_str_radix-IsNumeral 2 (omega arith) (omega arith) h k

pub parse_u32_base_prefix-IsPrefixed :
    (s : String) (v : ℕ) → v < 2 ^ 32 → IsPrefixed (codes s) v → parse_u32_base_prefix s ≡ some v
unfolding parse_u32_base_prefix
parse_u32_base_prefix-IsPrefixed s v h k = base_prefix-IsPrefixed h k
