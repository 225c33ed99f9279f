-- ===== src/WhaleLand/Fixed/Float/RoundTrip.antt =====
-- fixed.rs: fixed-point numbers through floating-point numbers and back.
use one_true_pairing.Common.{
  ℕ, suc, ◌-◌, ◌*◌, ◌/◌, ◌%◌, ◌^◌, ◌<◌, ◌≤◌, ◌≡◌, refl, ap, ◌∙◌, Bool, true, false, ◌||◌, some,
  arith, ltb, ◌==◌, ==_iff, lt→ltb, le→ltb,
}
use native.Mathlib.Nat.{
  le_trans, mul-mod_left, mul-div_cancel, mul-le-mul_right, mul-lt-mul_of_pos_right,
}
use one_true_pairing.Common.Int.{ℤ, pos, negsuc, IsI32}
use one_true_pairing.WhaleLand.Fixed.{Fixed, from_inner_value}
use one_true_pairing.WhaleLand.Fixed.Float.{
  FloatType, f32, f64, precision, unit, overflow, finite, round_to, as_float, gt, signed, as_i32,
  try_from_float, into_float, over_256,
}
use one_true_pairing.WhaleLand.Fixed.Float.Rounding.{round-i32_max, round-i32_min, round_exact}
use one_true_pairing.WhaleLand.Fixed.Float.Exact.{unit-pos}

-- The magnitude of an i32 with that sign.
abbrev pub magnitude_limit : Bool → ℕ
magnitude_limit false = 2 ^ 31 - 1
magnitude_limit true = 2 ^ 31

below_overflow : (t : FloatType) (n : ℕ) → n ≤ 2 ^ 31 → n * unit t < overflow t * unit t
below_overflow t n h = mul-lt-mul_of_pos_right (below t) (unit-pos t)
  where
    below : (t : FloatType) → n < overflow t
    below f32 = omega arith
    below f64 = omega arith

i32_max-le : (t : FloatType) → 2 ^ 31 - 1 ≤ round_to t (2 ^ 31 - 1)
i32_max-le f32 = omega (arith, round-i32_max.0)
i32_max-le f64 = omega (arith, round-i32_max.1)

within :
    (t : FloatType) (s : Bool) (n : ℕ)
    → n ≤ magnitude_limit s
    → (gt (finite s (n * unit t)) (as_float t (pos (2 ^ 31 - 1)))
        || gt (as_float t (negsuc (2 ^ 31 - 1))) (finite s (n * unit t)))
      ≡ false
unfolding gt as_float
within t false n h =
    let k = mul-le-mul_right (unit t) (le_trans h (i32_max-le t)) in
    rw (le→ltb (round_to t (2 ^ 31 - 1) * unit t) (n * unit t) k)
within t true n h =
    let k = mul-le-mul_right (unit t) h in
    rw (round-i32_min t) (le→ltb (2 ^ 31 * unit t) (n * unit t) k)

as_i32-times_unit :
    (t : FloatType) (s : Bool) (n : ℕ)
    → n ≤ magnitude_limit s
    → as_i32 t (finite s (n * unit t)) ≡ signed s n
unfolding as_i32
as_i32-times_unit t false n h = let q = mul-div_cancel n (unit-pos t) in ap pos (omega arith)
as_i32-times_unit t true n h =
    let q = mul-div_cancel n (unit-pos t) in ap (signed true) (omega arith)

passed :
    (t : FloatType) (s : Bool) (v w : ℕ)
    → v * 256 ≡ w
    → ltb w (overflow t * unit t) ≡ true
    → (w % unit t == 0) ≡ true
    → (gt (finite s w) (as_float t (pos (2 ^ 31 - 1)))
        || gt (as_float t (negsuc (2 ^ 31 - 1))) (finite s w))
      ≡ false
    → try_from_float t (finite s v) ≡ some (from_inner_value (as_i32 t (finite s w)))
unfolding try_from_float
passed t s v w e below whole in_range = rw e (rw below (rw whole (rw in_range refl)))

-- Every finite number that is exactly a fixed-point number is converted to it.
pub try_from_float-exact :
    (t : FloatType) (s : Bool) (v n : ℕ)
    → v * 256 ≡ n * unit t
    → n ≤ magnitude_limit s
    → try_from_float t (finite s v) ≡ some (from_inner_value (signed s n))
try_from_float-exact t s v n e h =
    passed t s v (n * unit t) e
      (lt→ltb (n * unit t) (overflow t * unit t) (below_overflow t n (limit s h)))
      ((==_iff (n * unit t % unit t) 0).1 (mul-mod_left n (unit t))) (within t s n h)
    ∙ ap (λ z. some (from_inner_value z)) (as_i32-times_unit t s n h)
  where
    limit : (s : Bool) → n ≤ magnitude_limit s → n ≤ 2 ^ 31
    limit true k = k
    limit false k = omega arith

over_256-unit : (t : FloatType) (n : ℕ) → n * unit t / 256 * 256 ≡ n * unit t
over_256-unit f32 n = omega arith
over_256-unit f64 n = omega arith

-- The magnitude of a number, which a type has exactly if it has that many bits.
abbrev pub magnitude : ℤ → ℕ
magnitude (pos n) = n
magnitude (negsuc n) = suc n

-- A fixed-point number comes back from a floating-point type with as many bits as it has: from an
-- f64 always, from an f32 if its magnitude, in 256ths, is below 2 ^ 24.
pub try_from_float-into_float :
    (t : FloatType) (f : Fixed)
    → IsI32 f.inner
    → magnitude f.inner < 2 ^ precision t
    → try_from_float t (into_float t f) ≡ some f
unfolding into_float from_inner_value
try_from_float-into_float t f i m = back f.inner i m
  where
    back :
        (z : ℤ)
        → IsI32 z
        → magnitude z < 2 ^ precision t
        → try_from_float t (over_256 (as_float t z)) ≡ some (record { inner = z })
    back (pos n) i m =
        rw (round_exact t n m)
          (try_from_float-exact t false (n * unit t / 256) n (over_256-unit t n) (omega arith))
    back (negsuc n) i m = rw (round_exact t (suc n) m) (
        try_from_float-exact t true (suc n * unit t / 256) (suc n) (over_256-unit t (suc n))
          (omega arith))
