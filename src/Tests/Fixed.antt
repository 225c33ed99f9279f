-- ===== src/Tests/Fixed.antt =====
-- The conversions of fixed.rs at concrete numbers.
use one_true_pairing.Common.{ℕ, ◌*◌, ◌^◌, ◌≡◌, refl, ◌⊎◌, Bool, true, false, some, none, arith}
use one_true_pairing.Common.Int.{pos, negsuc, i32_bits}
use one_true_pairing.WhaleLand.Fixed.{
  Fixed, from_inner_value, u8, i8, i32, in_range, shl_8, bits, of_bits, from_int, try_from_int,
  shr_8, try_into_int,
}
use one_true_pairing.WhaleLand.Fixed.Float.{f32, f64, Float, finite, try_from_float, into_float}
use one_true_pairing.WhaleLand.Fixed.Float.Exact.{IsExactly, IsFirstAbove, try_from_float-IsExactly}
use one_true_pairing.WhaleLand.Fixed.Float.RoundTrip.{try_from_float-into_float}
use one_true_pairing.WhaleLand.Fixed.Exact.{
  times_256, try_into_int-times_256, try_into_int-from_int, try_from_int-wraps, IsI32, IsCongruent,
}

seven-u8 : try_into_int u8 (record { inner = pos 1792 }) ≡ some (pos 7)
unfolding try_into_int i32_bits shr_8 in_range
seven-u8 = refl

try_into_int-times_256_example : (pos 1792 ≡ times_256 (pos 7)) × (in_range u8 (pos 7) ≡ true)
try_into_int-times_256_example =
    try_into_int-times_256 u8 (record { inner = pos 1792 }) (pos 7) seven-u8

minus_two-in_range : in_range i8 (negsuc 1) ≡ true
unfolding in_range
minus_two-in_range = refl

try_into_int-from_int_example : try_into_int i8 (from_int (negsuc 1)) ≡ some (negsuc 1)
try_into_int-from_int_example = try_into_int-from_int i8 (negsuc 1) (omega arith) minus_two-in_range

try_from_int-wraps_example :
    (f : Fixed) × (try_from_int i32 (pos 16777216) ≡ some f)
    × IsI32 f.inner
    × IsCongruent f.inner (pos 4294967296)
try_from_int-wraps_example = try_from_int-wraps (pos 16777216)

-- 2 ^ 24 is cut to 0.
cut_to_zero : shl_8 i32 (pos 16777216) ≡ pos 0
unfolding shl_8 bits of_bits
cut_to_zero = refl

-- 1.5, as an f32.
abbrev one_and_a_half : Float
one_and_a_half = finite false (3 * 2 ^ 148)

try_from-one_and_a_half : try_from_float f32 one_and_a_half ≡ some (record { inner = pos 384 })
unfolding try_from_float from_inner_value
try_from-one_and_a_half = refl

try_from_float-IsExactly_example :
    (s : Bool) × (v : ℕ) × (n : ℕ) × (one_and_a_half ≡ finite s v)
    × (IsExactly f32 s v n (pos 384) ⊎ IsFirstAbove f32 s v (pos 384))
try_from_float-IsExactly_example =
    try_from_float-IsExactly f32 one_and_a_half (record { inner = pos 384 }) try_from-one_and_a_half

try_from_float-into_float_example :
    try_from_float f32 (into_float f32 (record { inner = negsuc 1791 }))
    ≡ some (record { inner = negsuc 1791 })
try_from_float-into_float_example =
    try_from_float-into_float f32 (record { inner = negsuc 1791 }) (omega arith) (omega arith)

-- 2 ^ 23 is too large for a fixed-point number; from an f32 it gives the greatest one.
first_above_f32 :
    try_from_float f32 (finite false (2 ^ 23 * 2 ^ 149)) ≡ some (record { inner = pos 2147483647 })
unfolding try_from_float from_inner_value
first_above_f32 = refl

first_above_f64 : try_from_float f64 (finite false (2 ^ 23 * 2 ^ 1074)) ≡ none
unfolding try_from_float
first_above_f64 = refl

-- An odd number of 25 bits is rounded by the way through an f32.
rounded_f32 :
    try_from_float f32 (into_float f32 (record { inner = pos 16777217 }))
    ≡ some (record { inner = pos 16777216 })
unfolding try_from_float into_float from_inner_value
rounded_f32 = refl
