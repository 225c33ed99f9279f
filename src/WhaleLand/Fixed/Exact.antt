-- ===== src/WhaleLand/Fixed/Exact.antt =====
-- fixed.rs: the conversions of integers are exact where the number has 24 bits.
use one_true_pairing.Common.{
  if_some, ℕ, ◌+◌, ◌-◌, ◌*◌, ◌/◌, ◌%◌, ◌^◌, ◌<◌, ◌≡◌, refl, sym, ap, ◌∙◌, true, none, some, arith,
  ltb, ◌==◌, if◌then◌else◌, Bool-cases, inl, inr,
}
use mathlib.Core.Option.{some-injective}
use one_true_pairing.Common.Int.{ℤ, pos, negsuc, i32_bits}
use one_true_pairing.WhaleLand.Fixed.{
  Fixed, from_inner_value, IntType, u32, i32, u64, i64, u128, i128, in_range, bits, of_bits, shl_8,
  from_int, try_from_int, shr_8, try_into_int,
}

-- `z * 256`
abbrev pub times_256 : ℤ → ℤ
times_256 (pos n) = pos (n * 256)
times_256 (negsuc n) = negsuc (n * 256 + 255)

-- A number of at most 24 bits, sign included.
abbrev pub IsI24 : ℤ → Type 0
IsI24 (pos n) = n < 2 ^ 23
IsI24 (negsuc n) = n < 2 ^ 23

-- The types that `TryFrom` is for.
abbrev pub IsWide : IntType → Type 0
IsWide u32 = Unit
IsWide i32 = Unit
IsWide u64 = Unit
IsWide i64 = Unit
IsWide u128 = Unit
IsWide i128 = Unit
IsWide _ = ⊥

floor-times_256 : (x : ℤ) → (i32_bits x % 256 == 0) ≡ true → x ≡ times_256 (shr_8 x)
unfolding shr_8 i32_bits
floor-times_256 (pos n) e = ap pos (ground arith)
floor-times_256 (negsuc n) e = ap negsuc (ground arith)

-- An integer type takes from a fixed-point number only its exact value: a result is given only if
-- the number is that integer times 256, and if the type has the integer.
pub try_into_int-times_256 :
    (t : IntType) (f : Fixed) (z : ℤ)
    → try_into_int t f ≡ some z
    → (f.inner ≡ times_256 z) × (in_range t z ≡ true)
unfolding try_into_int
try_into_int-times_256 t f z e =
    let (whole, e1) = if_some (i32_bits f.inner % 256 == 0) _ z e in
    let (fits, e2) = if_some (in_range t (shr_8 f.inner)) (some (shr_8 f.inner)) z e1 in
    let q = some-injective (shr_8 f.inner) z e2 in
    (floor-times_256 f.inner whole ∙ ap times_256 q, ap (in_range t) (sym q) ∙ fits)

shl_8_i32 : (z : ℤ) → IsI24 z → shl_8 i32 z ≡ times_256 z
unfolding shl_8 bits of_bits
shl_8_i32 (pos n) h = ground arith
shl_8_i32 (negsuc n) h = ground arith

try_into_int-from_inner_value :
    (t : IntType) (z : ℤ)
    → IsI24 z
    → in_range t z ≡ true
    → try_into_int t (from_inner_value (times_256 z)) ≡ some z
unfolding try_into_int shr_8 i32_bits from_inner_value
try_into_int-from_inner_value t (pos n) h r =
    let q : (n * 256 / 256) ≡ n = omega arith in
    let m : (n * 256 % 2 ^ 32 % 256) ≡ 0 = omega arith in rw (q, m) (rw r refl)
try_into_int-from_inner_value t (negsuc n) h r =
    let q : ((n * 256 + 255) / 256) ≡ n = omega arith in
    let m : ((2 ^ 32 - 1 - (n * 256 + 255) % 2 ^ 32) % 256) ≡ 0 = omega arith in
    rw (q, m) (rw r refl)

-- A number of at most 24 bits, sign included, comes back, in any type that has it, from the
-- fixed-point number that From makes of it.
pub try_into_int-from_int :
    (t : IntType) (z : ℤ) → IsI24 z → in_range t z ≡ true → try_into_int t (from_int z) ≡ some z
unfolding from_int
try_into_int-from_int t z h r =
    ap (λ x. try_into_int t (from_inner_value x)) (shl_8_i32 z h)
    ∙ try_into_int-from_inner_value t z h r

try_from_int-shl_8 : (z : ℤ) → try_from_int i32 z ≡ some (from_inner_value (shl_8 i32 z))
unfolding try_from_int shl_8 in_range of_bits
try_from_int-shl_8 z = cut (bits (2 ^ 32) z * 256 % 2 ^ 32) (omega arith)
  where
    cut :
        (w : ℕ)
        → w < 2 ^ 32
        → (if in_range i32 (of_bits i32 w) then some (from_inner_value (of_bits i32 w)) else none)
          ≡ some (from_inner_value (of_bits i32 w))
    cut w h = elim (Bool-cases (ltb w (2 ^ 31))) [
      | inl e ↦ ground (arith, e)
      | inr e ↦ ground (arith, e)
    ]

-- A whole number of `2 ^ 32` apart.
abbrev pub IsCongruent : ℤ → ℤ → Type 0
IsCongruent (pos m) (pos n) = m % 2 ^ 32 ≡ n % 2 ^ 32
IsCongruent (negsuc m) (negsuc n) = m % 2 ^ 32 ≡ n % 2 ^ 32
IsCongruent (pos m) (negsuc n) = (m + n + 1) % 2 ^ 32 ≡ 0
IsCongruent (negsuc m) (pos n) = (m + n + 1) % 2 ^ 32 ≡ 0

abbrev pub IsI32 : ℤ → Type 0
IsI32 (pos n) = n < 2 ^ 31
IsI32 (negsuc n) = n < 2 ^ 31

-- The value of a pattern of 32 bits.
of_bits-wraps :
    (w : ℕ) (z : ℤ)
    → w < 2 ^ 32
    → IsCongruent (pos w) z
    → IsI32 (of_bits i32 w) × IsCongruent (of_bits i32 w) z
unfolding of_bits
of_bits-wraps w (pos n) h e = elim (Bool-cases (ltb w (2 ^ 31))) [
  | inl f ↦ ground (arith, f)
  | inr f ↦ ground (arith, f)
]
of_bits-wraps w (negsuc n) h e = elim (Bool-cases (ltb w (2 ^ 31))) [
  | inl f ↦ ground (arith, f)
  | inr f ↦ ground (arith, f)
]

shl_8-wraps : (z : ℤ) → IsI32 (shl_8 i32 z) × IsCongruent (shl_8 i32 z) (times_256 z)
unfolding shl_8 bits
shl_8-wraps (pos n) = of_bits-wraps (n % 2 ^ 32 * 256 % 2 ^ 32) _ (omega arith) (omega arith)
shl_8-wraps (negsuc n) =
    of_bits-wraps ((2 ^ 32 - 1 - n % 2 ^ 32) * 256 % 2 ^ 32) _ (omega arith) (omega arith)

-- TryFrom does not fail for an i32, however large it is: its result is the one i32 that differs
-- from 256 times the number by a multiple of 2 ^ 32.
pub try_from_int-wraps :
    (z : ℤ)
    → (f : Fixed) × (try_from_int i32 z ≡ some f)
      × IsI32 f.inner
      × IsCongruent f.inner (times_256 z)
unfolding from_inner_value
try_from_int-wraps z =
    let (a, b) = shl_8-wraps z in (from_inner_value (shl_8 i32 z), try_from_int-shl_8 z, a, b)
