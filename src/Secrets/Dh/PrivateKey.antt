-- ===== src/Secrets/Dh/PrivateKey.antt =====
-- dh.rs, `generate_private_key`: which random numbers it takes.
use native.Mathlib.Nat.{le-div_iff_mul-le}
use one_true_pairing.Common.{
  ℕ, ◌-◌, ◌*◌, ◌/◌, ◌<◌, ◌≤◌, ◌≡◌, true, false, ◌&&◌, List, [], ◌∷◌, ◌++◌, arith, ltb, leb, le→ltb,
  ◌==◌, ◌⊎◌, inl, inr, Bool-cases, leb→le, le→leb, lt→leb, All,
}
use one_true_pairing.Secrets.Dh.{
  DiffieHellman, Generation, generated, drawing, draw, generate_private_key,
}

-- A random number whose half is not from 2 to the bound.
abbrev pub IsUnsuitable : ℕ → ℕ → Type 0
IsUnsuitable bound rand = (rand / 2 < 2) ⊎ (bound < rand / 2)

-- The loop takes the first suitable number.
pub data FirstSuitable (bound : ℕ) : List ℕ → Generation → Type 0 where
  found :
      (before : List ℕ) (rand : ℕ) (later : List ℕ)
      → All (IsUnsuitable bound) before
      → 2 ≤ rand / 2
      → rand / 2 ≤ bound
      → FirstSuitable bound (before ++ (rand ∷ later)) (generated (rand / 2))
  not_yet : (rands : List ℕ) → All (IsUnsuitable bound) rands → FirstSuitable bound rands drawing

unsuitable : (bound n : ℕ) → (leb 2 n && leb n bound) ≡ false → (n < 2) ⊎ (bound < n)
unsuitable bound n e = grind (arith, leb→le, le→leb, lt→leb)

next :
    (bound rand : ℕ) (later : List ℕ) (g : Generation)
    → IsUnsuitable bound rand
    → FirstSuitable bound later g
    → FirstSuitable bound (rand ∷ later) g
next bound rand _ _ u (found before r later us lo hi) = found (rand ∷ before) r later (u, us) lo hi
next bound rand _ _ u (not_yet rands us) = not_yet (rand ∷ rands) (u, us)

suitable : (bound n : ℕ) → (leb 2 n && leb n bound) ≡ true → (2 ≤ n) × (n ≤ bound)
suitable bound n e = grind (arith, leb→le, le→leb, lt→leb)

draw-FirstSuitable : (bound : ℕ) (rands : List ℕ) → FirstSuitable bound rands (draw bound rands)
unfolding draw
draw-FirstSuitable bound [] = not_yet [] _
draw-FirstSuitable bound (rand ∷ later) =
    let ih = draw-FirstSuitable bound later in
    elim (Bool-cases (leb 2 (rand / 2) && leb (rand / 2) bound)) [
      | inl e ↦
          let (lo, hi) = suitable bound (rand / 2) e in rw (e, draw) (found [] rand later _ lo hi)
      | inr e ↦ rw (e, draw) (next bound rand later _ (unsuitable bound (rand / 2) e) ih)
    ]

-- Where the generator is positive and twice the generator is below the prime, the private key is
-- half of the first random number whose half is from 2 to q - 2, q being (prime - 1) / generator,
-- and the loop goes on, without a panic, while no such number has been drawn.
pub generate_private_key-FirstSuitable :
    (dh : DiffieHellman) (rands : List ℕ)
    → 0 < dh.generator
    → dh.generator * 2 < dh.prime
    → FirstSuitable ((dh.prime - 1) / dh.generator - 2) rands (generate_private_key dh rands)
unfolding generate_private_key
generate_private_key-FirstSuitable dh rands g h =
    let a : (dh.prime == 0) ≡ false = ground arith in
    let b : (dh.generator == 0) ≡ false = ground arith in
    let two : 2 ≤ (dh.prime - 1) / dh.generator =
      (le-div_iff_mul-le {x = 2} {y = dh.prime - 1} g).1 (omega (arith, h)) in
    let c : ltb ((dh.prime - 1) / dh.generator) 2 ≡ false =
      le→ltb ((dh.prime - 1) / dh.generator) 2 two in
    rw (a, generate_private_key)
      (rw (b, c) (draw-FirstSuitable ((dh.prime - 1) / dh.generator - 2) rands))
