-- ===== src/WhaleLand/Fixed/Float/Exact.antt =====
-- fixed.rs: what the conversions of floating-point numbers give.
use one_true_pairing.Common.{
  if_some, if_none, ℕ, ◌-◌, ◌*◌, ◌/◌, ◌%◌, ◌^◌, ◌<◌, ◌≤◌, ◌≡◌, refl, sym, ap, ◌∙◌, ◌⊎◌, inl, inr,
  Bool, true, false, ◌||◌, none, some, arith, ltb, ◌==◌, if◌then◌else◌, Bool-cases, ==_iff,
  ltb-false→le, ltb→lt,
}
use Prim.Native.Nat.{min}
use mathlib.Core.Option.{some-injective}
use native.Mathlib.Nat.{div-add-mod, mul_comm, le_of_mul-le-mul_right}
use one_true_pairing.Common.Int.{ℤ, pos, negsuc}
use one_true_pairing.WhaleLand.Fixed.{Fixed, inner_value, from_inner_value}
use one_true_pairing.WhaleLand.Fixed.Float.{
  FloatType, f32, f64, unit, overflow, Float, nan, infinite, finite, round_to, as_float, is_whole,
  gt, signed, as_i32, try_from_float,
}
use one_true_pairing.WhaleLand.Fixed.Float.Rounding.{round-i32_max, round-i32_min}

-- The number `x` is the fixed-point number `f`, exactly: `n / 256` with the sign `s`.
pub record IsExactly (t : FloatType) (s : Bool) (v n : ℕ) (z : ℤ) : Type 0 where
  pub value : v * 256 ≡ n * unit t
  pub inner : z ≡ signed s n

-- The least number that is too large, of a type that has no number between it and the greatest
-- that fits.
pub record IsFirstAbove (t : FloatType) (s : Bool) (v : ℕ) (z : ℤ) : Type 0 where
  pub narrow : t ≡ f32
  pub positive : s ≡ false
  pub value : v * 256 ≡ 2 ^ 31 * unit t
  pub inner : z ≡ pos (2 ^ 31 - 1)

neither : (a b : Bool) → (a || b) ≡ false → (a ≡ false) × (b ≡ false)
neither a b e = ground arith

whole_part : (u w : ℕ) → (w % u == 0) ≡ true → w ≡ w / u * u
whole_part u w e = omega (arith, (==_iff (w % u) 0).0 e, div-add-mod w u, mul_comm u (w / u))

-- A number that is not above `n`.
part-le : (u w n : ℕ) → 0 < u → w ≡ w / u * u → w ≤ n * u → w / u ≤ n
part-le u w n p e h = le_of_mul-le-mul_right (rw (← e) h) p

pub unit-pos : (t : FloatType) → 0 < unit t
unit-pos f32 = omega arith
unit-pos f64 = omega arith

-- What the two tests against the range of an i32 say of a number of either sign.
in_range-le :
    (t : FloatType) (s : Bool) (w : ℕ)
    → (gt (finite s w) (as_float t (pos (2 ^ 31 - 1)))
        || gt (as_float t (negsuc (2 ^ 31 - 1))) (finite s w))
      ≡ false
    → w ≤ (if s then 2 ^ 31 else round_to t (2 ^ 31 - 1)) * unit t
unfolding gt as_float
in_range-le t false w e = ltb-false→le _ _ (neither _ _ e).0
in_range-le t true w e = rw (round-i32_min t) at (
    ltb-false→le (round_to t (2 ^ 31) * unit t) w
      (neither (gt (finite true w) (as_float t (pos (2 ^ 31 - 1)))) _ e).1)

accepted :
    (t : FloatType) (s : Bool) (w : ℕ) (f : Fixed)
    → (if is_whole t (finite s w)
        then (if gt (finite s w) (as_float t (pos (2 ^ 31 - 1)))
              || gt (as_float t (negsuc (2 ^ 31 - 1))) (finite s w)
            then none
            else some (from_inner_value (as_i32 t (finite s w))))
        else none)
      ≡ some f
    → (w ≡ w / unit t * unit t)
      × (w / unit t ≤ (if s then 2 ^ 31 else round_to t (2 ^ 31 - 1)))
      × (from_inner_value (as_i32 t (finite s w)) ≡ f)
unfolding is_whole
accepted t s w f e =
    let (whole, e1) = if_some (w % unit t == 0) _ f e in
    let (within, e2) = if_none _ _ f e1 in
    let p = whole_part (unit t) w whole in
    (p, part-le (unit t) w _ (unit-pos t) p (in_range-le t s w within), some-injective _ f e2)

-- The conversion to an i32 of a number that passed the tests.
as_i32-inner :
    (t : FloatType) (s : Bool) (v w n : ℕ) (z : ℤ)
    → n ≡ w / unit t
    → v * 256 ≡ n * unit t
    → n ≤ (if s then 2 ^ 31 else round_to t (2 ^ 31 - 1))
    → as_i32 t (finite s w) ≡ z
    → IsExactly t s v n z ⊎ IsFirstAbove t s v z
unfolding as_i32
as_i32-inner t true v w n z e value h q =
    let m : min (w / unit t) (2 ^ 31) ≡ n = omega arith in
    inl (record { value = value; inner = sym q ∙ ap (signed true) m })
as_i32-inner f32 false v w n z e value h q = elim (Bool-cases (ltb n (2 ^ 31))) [
  | inl small ↦
      let k : n < 2 ^ 31 = ltb→lt n (2 ^ 31) small in
      let m : min (w / unit f32) (2 ^ 31 - 1) ≡ n = omega arith in
      inl (record { value = value; inner = sym q ∙ ap pos m })
  | inr large ↦
      let k : n ≡ 2 ^ 31 = omega (arith, ltb-false→le n (2 ^ 31) large, round-i32_max.0) in
      let m : min (w / unit f32) (2 ^ 31 - 1) ≡ 2 ^ 31 - 1 = omega arith in
      inr (record {
        narrow = refl;
        positive = refl;
        value = value ∙ ap (λ (x : ℕ). x * unit f32) k;
        inner = sym q ∙ ap pos m;
      })
]
as_i32-inner f64 false v w n z e value h q =
    let m : min (w / unit f64) (2 ^ 31 - 1) ≡ n = omega (arith, round-i32_max.1) in
    inl (record { value = value; inner = sym q ∙ ap pos m })

-- A conversion of a floating-point number that succeeds is of a finite number, and gives exactly
-- its value, but for one number: the f32 that is 2 ^ 23, one step too large, gives the greatest
-- fixed-point number.
pub try_from_float-IsExactly :
    (t : FloatType) (x : Float) (f : Fixed)
    → try_from_float t x ≡ some f
    → (s : Bool) × (v : ℕ) × (n : ℕ) × (x ≡ finite s v)
      × (IsExactly t s v n f.inner ⊎ IsFirstAbove t s v f.inner)
unfolding try_from_float inner_value from_inner_value
try_from_float-IsExactly t nan f e = absurd (ground arith)
try_from_float-IsExactly t (infinite s) f e = absurd (ground arith)
try_from_float-IsExactly t (finite s v) f e =
    elim (Bool-cases (ltb (v * 256) (overflow t * unit t))) [
      | inr large ↦ absurd (ground arith)
      | inl small ↦
          let (p, h, q) = accepted t s (v * 256) f (rw small at e) in
          (
            s,
            v,
            v * 256 / unit t,
            refl,
            as_i32-inner t s v (v * 256) (v * 256 / unit t) f.inner refl p h (ap inner_value q),
          )
    ]
