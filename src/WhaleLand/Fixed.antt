-- ===== src/WhaleLand/Fixed.antt =====
-- whale-land/src/fixed.rs: 24.8 fixed-point numbers, and their conversions from and to integers.
pub mod Exact
pub mod Float
use one_true_pairing.Common.{
  ℕ, ◌+◌, ◌-◌, ◌*◌, ◌/◌, ◌%◌, ◌^◌, Bool, true, false, Option, none, some, ltb, ◌==◌, if◌then◌else◌,
}
use one_true_pairing.Common.Int.{ℤ, pos, negsuc, i32_bits}

pub record Fixed : Type 0 where
  pub inner : ℤ

unfoldable pub inner_value : Fixed → ℤ
inner_value f = f.inner

unfoldable pub from_inner_value : ℤ → Fixed
from_inner_value z = record { inner = z }

-- The types that the macros of fixed.rs are called with.
pub data IntType : Type 0 where
  u8 i8 u16 i16 u32 i32 u64 i64 u128 i128 : IntType

-- `2 ^ w` for a type of `w` bits.
abbrev pub modulus : IntType → ℕ
modulus u8 = 2 ^ 8
modulus i8 = 2 ^ 8
modulus u16 = 2 ^ 16
modulus i16 = 2 ^ 16
modulus u32 = 2 ^ 32
modulus i32 = 2 ^ 32
modulus u64 = 2 ^ 64
modulus i64 = 2 ^ 64
modulus u128 = 2 ^ 128
modulus i128 = 2 ^ 128

abbrev pub is_signed : IntType → Bool
is_signed i8 = true
is_signed i16 = true
is_signed i32 = true
is_signed i64 = true
is_signed i128 = true
is_signed _ = false

-- Whether the type has the value: the test of `try_from` between integer types.
unfoldable pub in_range : IntType → ℤ → Bool
in_range t (pos n) = if is_signed t then ltb n (modulus t / 2) else ltb n (modulus t)
in_range t (negsuc n) = if is_signed t then ltb n (modulus t / 2) else false

-- The bit pattern of a value in a type with that modulus, and the value of a pattern.
unfoldable pub bits : ℕ → ℤ → ℕ
bits m (pos n) = n % m
bits m (negsuc n) = m - 1 - n % m

unfoldable pub of_bits : IntType → ℕ → ℤ
of_bits t w =
    if is_signed t
    then (if ltb w (modulus t / 2) then pos w else negsuc (modulus t - 1 - w))
    else pos w

-- `value << 8` in the type of `value`: the high bits are lost.
unfoldable pub shl_8 : IntType → ℤ → ℤ
unfolding bits of_bits
shl_8 t z = of_bits t (bits (modulus t) z * 256 % modulus t)

-- `From`, for the types of up to 16 bits: `(value as i32) << 8`.
unfoldable pub from_int : ℤ → Fixed
unfolding shl_8
from_int z = from_inner_value (shl_8 i32 z)

-- `TryFrom`, for the types of 32 bits and more. `checked_shl(8)` is none only when the type has at
-- most 8 bits.
unfoldable pub try_from_int : IntType → ℤ → Option Fixed
unfolding shl_8 in_range
try_from_int t z = if in_range i32 (shl_8 t z) then some (from_inner_value (shl_8 t z)) else none

-- `>> 8` on an `i32`: an arithmetic shift.
unfoldable pub shr_8 : ℤ → ℤ
shr_8 (pos n) = pos (n / 256)
shr_8 (negsuc n) = negsuc (n / 256)

-- `TryFrom<Fixed>` for an integer type: `inner_value & FRAC_BIT_MASK` is a remainder.
unfoldable pub try_into_int : IntType → Fixed → Option ℤ
unfolding shr_8 in_range
try_into_int t f =
    if i32_bits f.inner % 256 == 0
    then (if in_range t (shr_8 f.inner) then some (shr_8 f.inner) else none)
    else none
