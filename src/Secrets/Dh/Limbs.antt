-- ===== src/Secrets/Dh/Limbs.antt =====
-- dh.rs and `UintExt` of secrets/mod.rs: a number and its bytes.
use native.Mathlib.Nat.{pow-suc}
use one_true_pairing.Common.{
  ℕ, zero, suc, ◌+◌, ◌*◌, ◌/◌, ◌%◌, ◌^◌, ◌<◌, ◌≡◌, refl, sym, ap, ◌∙◌, List, [], ◌∷◌, ◌++◌, arith,
  length, length-append, replicate, append-nil, subst, append_assoc,
}
use one_true_pairing.Common.Bytes.{Bytes}
use one_true_pairing.Totp.Hotp.{u64_to_be_bytes}
use one_true_pairing.Secrets.Dh.{as_limbs, rev, flat_map, to_be_byte_vec, from_be_slice}

pub from_be_slice-append :
    (n : ℕ) (bs cs : Bytes) → from_be_slice n (bs ++ cs) ≡ from_be_slice (from_be_slice n bs) cs
from_be_slice-append n [] cs = refl
from_be_slice-append n (b ∷ bs) cs = from_be_slice-append (n * 256 + b) bs cs

-- Zeros in front do not change the number.
pub from_be_slice-padded :
    (k : ℕ) (bs : Bytes) → from_be_slice 0 (replicate k 0 ++ bs) ≡ from_be_slice 0 bs
from_be_slice-padded zero bs = refl
from_be_slice-padded (suc k) bs = from_be_slice-padded k bs

flat_map-append :
    {A B : Type 0} (f : A → List B) (xs : List A) (x : A)
    → flat_map f (xs ++ (x ∷ [])) ≡ flat_map f xs ++ f x
flat_map-append f [] x = append-nil (f x)
flat_map-append f (y ∷ ys) x =
    ap (λ zs. f y ++ zs) (flat_map-append f ys x) ∙ sym (append_assoc (f y) (flat_map f ys) (f x))

u64_lem : (n x : ℕ) → x < 2 ^ 64 → from_be_slice n (u64_to_be_bytes x) ≡ n * 2 ^ 64 + x
unfolding u64_to_be_bytes
u64_lem n x h = omega arith

to_be_byte_vec-suc :
    (limbs x : ℕ)
    → to_be_byte_vec (suc limbs) x
      ≡ to_be_byte_vec limbs (x / 2 ^ 64) ++ u64_to_be_bytes (x % 2 ^ 64)
unfolding to_be_byte_vec as_limbs
to_be_byte_vec-suc limbs x =
    flat_map-append u64_to_be_bytes (rev (as_limbs limbs (x / 2 ^ 64))) (x % 2 ^ 64)

-- Eight bytes for each limb.
pub length-to_be_byte_vec : (limbs x : ℕ) → length (to_be_byte_vec limbs x) ≡ limbs * 8
unfolding to_be_byte_vec as_limbs u64_to_be_bytes
length-to_be_byte_vec zero x = refl
length-to_be_byte_vec (suc limbs) x =
    ap length (to_be_byte_vec-suc limbs x)
    ∙ omega (
      arith,
      length-append (to_be_byte_vec limbs (x / 2 ^ 64)) (u64_to_be_bytes (x % 2 ^ 64)),
      length-to_be_byte_vec limbs (x / 2 ^ 64),
    )

pow-add_64 : (n : ℕ) → 2 ^ (64 + n) ≡ 2 ^ 64 * 2 ^ n
pow-add_64 zero = refl
pow-add_64 (suc n) =
    let e : 64 + suc n ≡ suc (64 + n) = omega arith in
    ap (λ k. 2 ^ k) e ∙ pow-suc 2 (64 + n) ∙ omega (arith, pow-add_64 n, pow-suc 2 n)

div-lt_pow : (limbs x : ℕ) → x < 2 ^ (64 * suc limbs) → x / 2 ^ 64 < 2 ^ (64 * limbs)
div-lt_pow limbs x h =
    let e : 64 * suc limbs ≡ 64 + 64 * limbs = omega arith in
    let k : x < 2 ^ (64 + 64 * limbs) = subst (λ n. x < 2 ^ n) e h in
    omega (arith, k, pow-add_64 (64 * limbs))

-- The bytes of a number that fits spell it.
pub from_be_slice-to_be_byte_vec :
    (limbs x : ℕ) → x < 2 ^ (64 * limbs) → from_be_slice 0 (to_be_byte_vec limbs x) ≡ x
unfolding to_be_byte_vec as_limbs
from_be_slice-to_be_byte_vec zero x h = omega (arith, h)
from_be_slice-to_be_byte_vec (suc limbs) x h =
    let ih = from_be_slice-to_be_byte_vec limbs (x / 2 ^ 64) (div-lt_pow limbs x h) in
    ap (from_be_slice 0) (to_be_byte_vec-suc limbs x)
    ∙ from_be_slice-append 0 (to_be_byte_vec limbs (x / 2 ^ 64)) (u64_to_be_bytes (x % 2 ^ 64))
    ∙ u64_lem (from_be_slice 0 (to_be_byte_vec limbs (x / 2 ^ 64))) (x % 2 ^ 64) (omega arith)
    ∙ omega (arith, ih)
