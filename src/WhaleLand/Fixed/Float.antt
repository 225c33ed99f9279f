-- ===== src/WhaleLand/Fixed/Float.antt =====
-- whale-land/src/fixed.rs: the conversions from and to floating-point numbers. The numbers are
-- those of IEEE 754, as in Rust, with rounding to the nearest and ties to even.
pub mod Rounding
pub mod Exact
pub mod RoundTrip
use one_true_pairing.Common.{
  ℕ, zero, suc, ◌+◌, ◌-◌, ◌*◌, ◌/◌, ◌%◌, ◌^◌, Bool, true, false, ◌&&◌, ◌||◌, Option, none, some,
  ltb, ◌==◌, if◌then◌else◌,
}
use Prim.Native.Nat.{min}
use one_true_pairing.Common.Int.{ℤ, pos, negsuc}
use one_true_pairing.WhaleLand.Fixed.{Fixed, from_inner_value}

-- The types that the macros for floating-point numbers are called with.
pub data FloatType : Type 0 where
  f32 f64 : FloatType

-- The bits of a significand, with the leading one.
abbrev pub precision : FloatType → ℕ
precision f32 = 24
precision f64 = 53

-- The smallest positive number is `1 / unit`.
abbrev pub unit : FloatType → ℕ
unit f32 = 2 ^ 149
unit f64 = 2 ^ 1074

-- Every finite number is below this power of two.
abbrev pub overflow : FloatType → ℕ
overflow f32 = 2 ^ 128
overflow f64 = 2 ^ 1024

-- `finite negative v` is `v / unit` with that sign, so 0 has two.
pub data Float : Type 0 where
  nan : Float
  infinite : Bool → Float
  finite : Bool → ℕ → Float

-- How many bits of `n` there are beyond `p`, at most `fuel`.
unfoldable pub excess : ℕ → ℕ → ℕ → ℕ
excess zero p n = 0
excess (suc fuel) p n = elim (ltb n (2 ^ p)) [ true ↦ 0 | false ↦ suc (excess fuel (suc p) n) ]

-- The nearest multiple of `2 ^ k`; of two that are as near, the even one.
unfoldable pub round_at : ℕ → ℕ → ℕ
round_at zero n = n
round_at (suc k) n =
    let q = n / 2 ^ suc k in
    let r = n % 2 ^ suc k in
    (if ltb (2 ^ k) r || (r == 2 ^ k && q % 2 == 1) then q + 1 else q) * 2 ^ suc k

-- The integer `n`, below `2 ^ 32`, as the type has it.
unfoldable pub round_to : FloatType → ℕ → ℕ
unfolding excess round_at
round_to t n = round_at (excess 32 (precision t) n) n

-- `as f32` and `as f64` from an i32.
unfoldable pub as_float : FloatType → ℤ → Float
unfolding round_to
as_float t (pos n) = finite false (round_to t n * unit t)
as_float t (negsuc n) = finite true (round_to t (suc n) * unit t)

-- `* one_shift_8`: exact, as it leaves the significand as it is, but it may overflow.
unfoldable pub times_256 : FloatType → Float → Float
times_256 t nan = nan
times_256 t (infinite s) = infinite s
times_256 t (finite s v) =
    if ltb (v * 256) (overflow t * unit t) then finite s (v * 256) else infinite s

-- `/ one_shift_8`: exact for the integers that it is called with, which are multiples of `unit`.
unfoldable pub over_256 : Float → Float
over_256 nan = nan
over_256 (infinite s) = infinite s
over_256 (finite s v) = finite s (v / 256)

-- `fract() == 0.0`: what is not finite has no fractional part that is a number.
unfoldable pub is_whole : FloatType → Float → Bool
is_whole t (finite s v) = v % unit t == 0
is_whole t _ = false

-- `>` between numbers
abbrev pub gt_finite : Bool → ℕ → Bool → ℕ → Bool
gt_finite false v false w = ltb w v
gt_finite false v true w = ltb 0 (v + w)
gt_finite true v false w = false
gt_finite true v true w = ltb v w

unfoldable pub gt : Float → Float → Bool
gt (finite s v) (finite s' w) = gt_finite s v s' w
gt (finite s v) (infinite s') = s'
gt (infinite false) (infinite s') = s'
gt (infinite false) (finite s' w) = true
gt _ _ = false

-- A number with a sign.
abbrev pub signed : Bool → ℕ → ℤ
signed false n = pos n
signed true zero = pos 0
signed true (suc n) = negsuc n

-- `as i32`: towards zero, with what does not fit at the end of the range, and 0 for NaN.
unfoldable pub as_i32 : FloatType → Float → ℤ
as_i32 t nan = pos 0
as_i32 t (infinite false) = pos (2 ^ 31 - 1)
as_i32 t (infinite true) = negsuc (2 ^ 31 - 1)
as_i32 t (finite false v) = pos (min (v / unit t) (2 ^ 31 - 1))
as_i32 t (finite true v) = signed true (min (v / unit t) (2 ^ 31))

-- `TryFrom` from a floating-point number.
unfoldable pub try_from_float : FloatType → Float → Option Fixed
unfolding times_256 is_whole gt as_i32 as_float
try_from_float t value =
    let multiplied = times_256 t value in
    let max_int = as_float t (pos (2 ^ 31 - 1)) in
    let min_int = as_float t (negsuc (2 ^ 31 - 1)) in
    if is_whole t multiplied
    then (if gt multiplied max_int || gt min_int multiplied
        then none
        else some (from_inner_value (as_i32 t multiplied)))
    else none

-- `From<Fixed>` for a floating-point number.
unfoldable pub into_float : FloatType → Fixed → Float
unfolding over_256 as_float
into_float t f = over_256 (as_float t f.inner)
