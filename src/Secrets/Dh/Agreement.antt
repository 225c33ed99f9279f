-- ===== src/Secrets/Dh/Agreement.antt =====
-- dh.rs: two parties that exchange their public keys derive the same secret key.
use native.Mathlib.Nat.{
  pow-suc, pow-zero, mul_comm, mul_assoc, mul-mul-mul_comm, add-mul, add-mul-mod_self_left,
  mod-add-div, mod-lt, lt_trans,
}
use one_true_pairing.Common.{
  ℕ, zero, suc, ◌+◌, ◌-◌, ◌*◌, ◌/◌, ◌%◌, ◌^◌, ◌<◌, ◌≤◌, ◌≡◌, refl, sym, ap, ◌∙◌, false, none, some,
  arith, ltb, le→ltb, lt→ltb, length, subst,
}
use one_true_pairing.Common.Bytes.{Bytes}
use one_true_pairing.Secrets.Dh.{
  Modular, IsModular, DiffieHellman, from_be_slice, key_to_be_bytes, derive_public_key,
  public_key_from_be_bytes, derive_secret_key,
}
use one_true_pairing.Secrets.Dh.Limbs.{
  length-to_be_byte_vec, from_be_slice-to_be_byte_vec, from_be_slice-padded,
}

mod-mul : (x y p : ℕ) → x % p * y % p ≡ x * y % p
mod-mul x y p =
    sym (add-mul-mod_self_left (x % p * y) p (x / p * y))
    ∙ ap (λ z. z % p)
        (ap (λ z. x % p * y + z) (sym (mul_assoc p (x / p) y))
          ∙ sym (add-mul (x % p) (p * (x / p)) y)
          ∙ ap (λ z. z * y) (mod-add-div x p))

mul-mod : (x y p : ℕ) → y * (x % p) % p ≡ y * x % p
mul-mod x y p =
    ap (λ z. z % p) (mul_comm y (x % p)) ∙ mod-mul x y p ∙ ap (λ z. z % p) (mul_comm x y)

-- A power of a number is congruent to the power of its residue.
mod-pow : (x p e : ℕ) → (x % p) ^ e % p ≡ x ^ e % p
mod-pow x p zero = ap (λ z. z % p) (pow-zero (x % p) ∙ sym (pow-zero x))
mod-pow x p (suc e) =
    ap (λ z. z % p) (pow-suc (x % p) e)
    ∙ mul-mod x ((x % p) ^ e) p
    ∙ sym (mod-mul ((x % p) ^ e) x p)
    ∙ ap (λ z. z * x % p) (mod-pow x p e)
    ∙ mod-mul (x ^ e) x p
    ∙ ap (λ z. z % p) (sym (pow-suc x e))

mul-pow : (x y e : ℕ) → (x * y) ^ e ≡ x ^ e * y ^ e
mul-pow x y zero = rw (pow-zero (x * y), pow-zero x) (rw (pow-zero y) refl)
mul-pow x y (suc e) =
    pow-suc (x * y) e
    ∙ ap (λ z. z * (x * y)) (mul-pow x y e)
    ∙ mul-mul-mul_comm (x ^ e) (y ^ e) x y
    ∙ rw (pow-suc x e, pow-suc y e) refl

one_pow : (a : ℕ) → 1 ^ a ≡ 1
one_pow zero = refl
one_pow (suc a) = pow-suc 1 a ∙ omega (arith, one_pow a)

pow_comm : (x a b : ℕ) → (x ^ a) ^ b ≡ (x ^ b) ^ a
pow_comm x a zero = pow-zero (x ^ a) ∙ sym (ap (λ z. z ^ a) (pow-zero x) ∙ one_pow a)
pow_comm x a (suc b) =
    pow-suc (x ^ a) b
    ∙ ap (λ z. z * x ^ a) (pow_comm x a b)
    ∙ sym (mul-pow (x ^ b) x a)
    ∙ ap (λ z. z ^ a) (sym (pow-suc x b))

module _ {modular : Modular} (laws : IsModular modular) where
  -- What arrives of a public key.
  pub arrived :
      (dh : DiffieHellman) (key : ℕ)
      → key < 2 ^ (64 * dh.limbs)
      → public_key_from_be_bytes modular dh (key_to_be_bytes dh key) ≡ some (key % dh.prime)
  unfolding public_key_from_be_bytes
  arrived dh key h =
      let l = length-to_be_byte_vec dh.limbs key in
      let e : ltb (dh.limbs * 8) (length (key_to_be_bytes dh key)) ≡ false =
        le→ltb (dh.limbs * 8) (length (key_to_be_bytes dh key)) (omega (arith, l)) in
      rw (e, public_key_from_be_bytes)
        (ap some (
          laws.reduce_lem dh.prime _
          ∙ ap (λ z. z % dh.prime)
              (from_be_slice-padded (dh.limbs * 8 - length (key_to_be_bytes dh key))
                  (key_to_be_bytes dh key)
                ∙ from_be_slice-to_be_byte_vec dh.limbs key h)))

  derive_public_key-lt :
      (dh : DiffieHellman) (key : ℕ)
      → 0 < dh.prime
      → dh.prime < 2 ^ (64 * dh.limbs)
      → derive_public_key modular dh key < 2 ^ (64 * dh.limbs)
  unfolding derive_public_key
  derive_public_key-lt dh key h k =
      subst (λ z. z < 2 ^ (64 * dh.limbs)) (sym (laws.pow_lem dh.prime dh.generator_monty key))
        (lt_trans (mod-lt (dh.generator_monty ^ key) h) k)

  -- The secret from one private key and the other public key.
  secret_lem :
      (dh : DiffieHellman) (mine theirs : ℕ)
      → derive_secret_key modular dh mine (derive_public_key modular dh theirs % dh.prime)
        ≡ (dh.generator_monty ^ theirs) ^ mine % dh.prime
  unfolding derive_secret_key derive_public_key
  secret_lem dh mine theirs =
      laws.pow_lem dh.prime _ mine
      ∙ mod-pow (modular.pow dh.prime dh.generator_monty theirs) dh.prime mine
      ∙ ap (λ z. z ^ mine % dh.prime) (laws.pow_lem dh.prime dh.generator_monty theirs)
      ∙ mod-pow (dh.generator_monty ^ theirs) dh.prime mine

  -- Two parties with the same group, whose prime is positive and fits into the limbs, read each
  -- other's public key from its bytes and derive the same secret key, where the modular numbers
  -- compute modulo the prime.
  pub derive_secret_key-agree :
      (dh : DiffieHellman) (a b : ℕ)
      → 0 < dh.prime
      → dh.prime < 2 ^ (64 * dh.limbs)
      → (key_of_a : ℕ) × (key_of_b : ℕ) × (public_key_from_be_bytes modular dh
            (key_to_be_bytes dh (derive_public_key modular dh a))
          ≡ some key_of_a)
        × (public_key_from_be_bytes modular dh (key_to_be_bytes dh (derive_public_key modular dh b))
            ≡ some key_of_b)
        × (derive_secret_key modular dh a key_of_b ≡ derive_secret_key modular dh b key_of_a)
  derive_secret_key-agree dh a b h k = (
    derive_public_key modular dh a % dh.prime,
    derive_public_key modular dh b % dh.prime,
    arrived dh (derive_public_key modular dh a) (derive_public_key-lt dh a h k),
    arrived dh (derive_public_key modular dh b) (derive_public_key-lt dh b h k),
    secret_lem dh a b
        ∙ ap (λ z. z % dh.prime) (pow_comm dh.generator_monty b a)
        ∙ sym (secret_lem dh b a),
  )

module _ {modular : Modular} (laws : IsModular modular) where
  -- Bytes that are more than the limbs hold are no public key; all others give the number that
  -- they spell, modulo the prime, where the modular numbers compute modulo the prime.
  pub public_key_from_be_bytes-value :
      (dh : DiffieHellman) (bytes : Bytes)
      → (dh.limbs * 8 < length bytes → public_key_from_be_bytes modular dh bytes ≡ none)
        × (length bytes ≤ dh.limbs * 8
            → public_key_from_be_bytes modular dh bytes ≡ some (from_be_slice 0 bytes % dh.prime))
  unfolding public_key_from_be_bytes
  public_key_from_be_bytes-value dh bytes = (
    λ h. rw (lt→ltb (dh.limbs * 8) (length bytes) h, public_key_from_be_bytes) refl,
    λ h.
        rw (le→ltb (dh.limbs * 8) (length bytes) h, public_key_from_be_bytes)
          (ap some (
            laws.reduce_lem dh.prime _
            ∙ ap (λ z. z % dh.prime) (from_be_slice-padded (dh.limbs * 8 - length bytes) bytes))),
  )
