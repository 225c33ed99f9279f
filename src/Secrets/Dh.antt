-- ===== src/Secrets/Dh.antt =====
-- one-true-pairing/src/secrets/dh.rs: Diffie-Hellman over numbers of a fixed count of 64-bit limbs.
-- The modular numbers of crypto_bigint are a parameter, with the integer that they stand for.
pub mod Limbs
pub mod Agreement
pub mod PrivateKey
use one_true_pairing.Common.{
  ℕ, zero, suc, ◌+◌, ◌-◌, ◌*◌, ◌/◌, ◌%◌, ◌^◌, ◌≡◌, Bool, ◌&&◌, Option, none, some, List, [], ◌∷◌,
  ◌++◌, ltb, leb, ◌==◌, if◌then◌else◌, length, replicate,
}
use one_true_pairing.Common.Bytes.{Bytes}
use one_true_pairing.Totp.Hotp.{u64_to_be_bytes}

-- `MontyForm::new` and `MontyForm::pow`: the modulus first, then the number, then the exponent.
pub record Modular : Type 0 where
  pub reduce : ℕ → ℕ → ℕ
  pub pow : ℕ → ℕ → ℕ → ℕ

-- They compute modulo the modulus.
pub record IsModular (m : Modular) : Type 0 where
  pub reduce_lem : (p x : ℕ) → m.reduce p x ≡ x % p
  pub pow_lem : (p x e : ℕ) → m.pow p x e ≡ x ^ e % p

-- The limbs of a number, the least significant first.
unfoldable pub as_limbs : ℕ → ℕ → List ℕ
as_limbs zero x = []
as_limbs (suc limbs) x = (x % 2 ^ 64) ∷ as_limbs limbs (x / 2 ^ 64)

abbrev pub rev : {A : Type 0} → List A → List A
rev [] = []
rev (x ∷ xs) = rev xs ++ (x ∷ [])

abbrev pub flat_map : {A B : Type 0} → (A → List B) → List A → List B
flat_map f [] = []
flat_map f (x ∷ xs) = f x ++ flat_map f xs

unfoldable pub to_be_byte_vec : ℕ → ℕ → Bytes
to_be_byte_vec limbs x = flat_map u64_to_be_bytes (rev (as_limbs limbs x))

-- The number that bytes spell, the most significant first, after the number `n`:
-- `Uint::from_be_slice`
abbrev pub from_be_slice : ℕ → Bytes → ℕ
from_be_slice n [] = n
from_be_slice n (b ∷ bs) = from_be_slice (n * 256 + b) bs

pub record DiffieHellman : Type 0 where
  pub limbs : ℕ
  pub prime : ℕ
  pub generator : ℕ
  pub generator_monty : ℕ

-- How far `generate_private_key` has come when these random numbers have been drawn.
pub data Generation : Type 0 where
  generated : ℕ → Generation
  drawing : Generation
  panicked : Generation

-- The loop: half a random number, when it is from 2 to `q_minus_two`.
unfoldable pub draw : ℕ → List ℕ → Generation
draw q_minus_two [] = drawing
draw q_minus_two (rand_p ∷ later) =
    let rest = draw q_minus_two later in
    if leb 2 (rand_p / 2) && leb (rand_p / 2) q_minus_two then generated (rand_p / 2) else rest

-- `q` is half the prime for the generator 2. The subtractions and the division panic.
unfoldable pub generate_private_key : DiffieHellman → List ℕ → Generation
generate_private_key dh rands =
    let q = (dh.prime - 1) / dh.generator in
    if dh.prime == 0
    then panicked
    else if dh.generator == 0
    then panicked
    else if ltb q 2
    then panicked
    else draw (q - 2) rands

module _ (modular : Modular) where
  -- `DiffieHellman::new`: an even modulus is a panic.
  unfoldable pub new : ℕ → ℕ → ℕ → Option DiffieHellman
  new limbs prime generator =
      if prime % 2 == 1
      then some record {
        limbs = limbs;
        prime = prime;
        generator = generator;
        generator_monty = modular.reduce prime generator;
      }
      else none

  unfoldable pub derive_public_key : DiffieHellman → ℕ → ℕ
  derive_public_key dh private_key = modular.pow dh.prime dh.generator_monty private_key

  unfoldable pub public_key_from_be_bytes : DiffieHellman → Bytes → Option ℕ
  public_key_from_be_bytes dh bytes =
      let byte_count = dh.limbs * 8 in
      if ltb byte_count (length bytes)
      then none
      else some (
          modular.reduce dh.prime
            (from_be_slice 0 (replicate (byte_count - length bytes) 0 ++ bytes)))

  unfoldable pub derive_secret_key : DiffieHellman → ℕ → ℕ → ℕ
  derive_secret_key dh my_private_key their_public_key =
      modular.pow dh.prime their_public_key my_private_key

-- `DhPublicKey::to_be_bytes` and `DhPrivateKey::to_be_bytes_warning_dangerous`
abbrev pub key_to_be_bytes : DiffieHellman → ℕ → Bytes
key_to_be_bytes dh key = to_be_byte_vec dh.limbs key
