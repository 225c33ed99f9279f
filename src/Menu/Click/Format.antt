-- ===== src/Menu/Click/Format.antt =====
-- notifier/mod.rs, the text of a code: as many digits as wanted, and they spell the number.
use native.Mathlib.Nat.{pow-suc}
use one_true_pairing.Common.{
  ℕ, zero, suc, ◌+◌, ◌-◌, ◌*◌, ◌/◌, ◌%◌, ◌^◌, ◌<◌, ◌≡◌, refl, sym, ap, ◌∙◌, true, false, [], ◌∷◌,
  ◌++◌, append_assoc, arith, ltb, lt→ltb, Bool-cases, ltb→lt, inl, inr, length, length-append,
  replicate,
}
use one_true_pairing.Common.Bytes.{Bytes}
use one_true_pairing.Menu.Click.{decimal, format_code}

-- The last `width` decimal digits.
abbrev pub fixed_width : ℕ → ℕ → Bytes
fixed_width zero n = []
fixed_width (suc width) n = fixed_width width (n / 10) ++ ((b'0' + n % 10) ∷ [])

-- The number that decimal digits spell.
abbrev pub spelled : ℕ → Bytes → ℕ
spelled n [] = n
spelled n (c ∷ cs) = spelled (n * 10 + (c - b'0')) cs

pub length-fixed_width : (width n : ℕ) → length (fixed_width width n) ≡ width
length-fixed_width zero n = refl
length-fixed_width (suc width) n = omega (
  arith,
  length-append (fixed_width width (n / 10)) ((b'0' + n % 10) ∷ []),
  length-fixed_width width (n / 10),
)

spelled-append :
    (n : ℕ) (cs : Bytes) (c : ℕ) → spelled n (cs ++ (c ∷ [])) ≡ spelled n cs * 10 + (c - b'0')
spelled-append n [] c = refl
spelled-append n (d ∷ cs) c = spelled-append (n * 10 + (d - b'0')) cs c

div-lt_pow : (width n : ℕ) → n < 10 ^ suc width → n / 10 < 10 ^ width
div-lt_pow width n h = let k : n < 10 ^ width * 10 = rw pow-suc at h in omega (arith, k)

pub spelled-fixed_width : (width n : ℕ) → n < 10 ^ width → spelled 0 (fixed_width width n) ≡ n
spelled-fixed_width zero n h = omega arith
spelled-fixed_width (suc width) n h =
    spelled-append 0 (fixed_width width (n / 10)) (b'0' + n % 10)
    ∙ omega (arith, spelled-fixed_width width (n / 10) (div-lt_pow width n h))

replicate-append : (k c : ℕ) → replicate k c ++ (c ∷ []) ≡ c ∷ replicate k c
replicate-append zero c = refl
replicate-append (suc k) c = ap (λ xs. c ∷ xs) (replicate-append k c)

fixed_width_zero : (width : ℕ) → fixed_width width 0 ≡ replicate width b'0'
fixed_width_zero zero = refl
fixed_width_zero (suc width) =
    ap (λ xs. xs ++ (b'0' ∷ [])) (fixed_width_zero width) ∙ replicate-append width b'0'

one_digit :
    (width n : ℕ) → n < 10 → replicate width b'0' ++ ((b'0' + n) ∷ []) ≡ fixed_width (suc width) n
one_digit width n h =
    let d : n / 10 ≡ 0 = omega arith in
    let m : n % 10 ≡ n = omega arith in
    rw (d, m) (ap (λ xs. xs ++ ((b'0' + n) ∷ [])) (sym (fixed_width_zero width)))

more_digits :
    (width n : ℕ) (ds : Bytes)
    → replicate (width - length ds) b'0' ++ ds ≡ fixed_width width (n / 10)
    → replicate (suc width - length (ds ++ ((b'0' + n % 10) ∷ []))) b'0'
        ++ (ds ++ ((b'0' + n % 10) ∷ []))
      ≡ fixed_width (suc width) n
more_digits width n ds e =
    let k : suc width - length (ds ++ ((b'0' + n % 10) ∷ [])) ≡ width - length ds =
      omega (arith, length-append ds ((b'0' + n % 10) ∷ [])) in
    ap (λ x. replicate x b'0' ++ (ds ++ ((b'0' + n % 10) ∷ []))) k
    ∙ sym (append_assoc (replicate (width - length ds) b'0') ds ((b'0' + n % 10) ∷ []))
    ∙ ap (λ xs. xs ++ ((b'0' + n % 10) ∷ [])) e

short_case :
    (fuel width n : ℕ)
    → ltb n 10 ≡ true
    → replicate (suc width - length (decimal (suc fuel) n)) b'0' ++ decimal (suc fuel) n
      ≡ fixed_width (suc width) n
unfolding decimal
short_case fuel width n e =
    let k : suc width - 1 ≡ width = omega arith in
    rw (e, decimal)
      (ap (λ x. replicate x b'0' ++ ((b'0' + n) ∷ [])) k ∙ one_digit width n (ltb→lt n 10 e))

long_case :
    (fuel width n : ℕ)
    → ltb n 10 ≡ false
    → replicate (width - length (decimal fuel (n / 10))) b'0' ++ decimal fuel (n / 10)
      ≡ fixed_width width (n / 10)
    → replicate (suc width - length (decimal (suc fuel) n)) b'0' ++ decimal (suc fuel) n
      ≡ fixed_width (suc width) n
unfolding decimal
long_case fuel width n e ih = rw (e, decimal) (more_digits width n (decimal fuel (n / 10)) ih)

-- Zeros in front fill up the width.
pub padded-decimal :
    (fuel width n : ℕ)
    → n < 10 ^ suc fuel
    → n < 10 ^ suc width
    → replicate (suc width - length (decimal (suc fuel) n)) b'0' ++ decimal (suc fuel) n
      ≡ fixed_width (suc width) n
padded-decimal zero width n f h = short_case zero width n (lt→ltb n 10 f)
padded-decimal (suc fuel) zero n f h = short_case (suc fuel) zero n (lt→ltb n 10 h)
padded-decimal (suc fuel) (suc width) n f h =
    let ih =
      padded-decimal fuel width (n / 10) (div-lt_pow (suc fuel) n f) (div-lt_pow (suc width) n h) in
    elim (Bool-cases (ltb n 10)) [
      | inl e ↦ short_case (suc fuel) (suc width) n e
      | inr e ↦ long_case (suc fuel) (suc width) n e ih
    ]

-- The text of a code that has at most the wanted digits.
pub format_code_lem :
    (width code : ℕ)
    → code < 10 ^ 10
    → code < 10 ^ suc width
    → format_code code (suc width) ≡ fixed_width (suc width) code
unfolding format_code
format_code_lem width code = padded-decimal 9 width code
