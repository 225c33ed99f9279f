-- ===== src/WhaleLand/Fixed/Float/Rounding.antt =====
-- fixed.rs: what rounding does to the integers of an i32.
use one_true_pairing.Common.{ℕ, ◌-◌, ◌^◌, ◌<◌, ◌≡◌, refl, arith}
use one_true_pairing.WhaleLand.Fixed.Float.{FloatType, f32, f64, precision, round_to}

pub round_exact : (t : FloatType) (n : ℕ) → n < 2 ^ precision t → round_to t n ≡ n
unfolding round_to
round_exact f32 n h = ground arith
round_exact f64 n h = ground arith

pub round-i32_max : (round_to f32 (2 ^ 31 - 1) ≡ 2 ^ 31) × (round_to f64 (2 ^ 31 - 1) ≡ 2 ^ 31 - 1)
unfolding round_to
round-i32_max = (refl, refl)

pub round-i32_min : (t : FloatType) → round_to t (2 ^ 31) ≡ 2 ^ 31
unfolding round_to
round-i32_min f32 = refl
round-i32_min f64 = refl
