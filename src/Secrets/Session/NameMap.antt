-- ===== src/Secrets/Session/NameMap.antt =====
-- secrets/mod.rs, `get_secrets`: the map from names to paths, which is kept in the order of names.
use one_true_pairing.Common.{
  ℕ, ◌≡◌, refl, sym, ap, subst, ◌∙◌, Bool, true, false, ◌&&◌, ◌||◌, Option, none, some, List, [],
  ◌∷◌, arith, ltb, ◌==◌, ==_refl, if◌then◌else◌, inl, inr, Bool-cases, le→ltb,
}
use one_true_pairing.Common.Bytes.{Bytes}
use one_true_pairing.Totp.Url.{bytes_eq}
use one_true_pairing.Secrets.Session.{bytes_ltb, insert}

-- Each key comes before the next one.
abbrev pub IsFirst : Bytes → List (Bytes × Bytes) → Type 0
IsFirst k [] = Unit
IsFirst k ((l, w) ∷ entries) = bytes_ltb k l ≡ true

abbrev pub IsSorted : List (Bytes × Bytes) → Type 0
IsSorted [] = Unit
IsSorted ((k, v) ∷ entries) = IsFirst k entries × IsSorted entries

-- The path under a name.
abbrev pub lookup : Bytes → List (Bytes × Bytes) → Option Bytes
lookup name [] = none
lookup name ((k, v) ∷ entries) = if bytes_eq name k then some v else lookup name entries

IsFirst-insert :
    (j k v : Bytes) (m : List (Bytes × Bytes))
    → bytes_ltb j k ≡ true
    → IsFirst j m
    → IsFirst j (insert k v m)
unfolding insert
IsFirst-insert j k v [] h f = h
IsFirst-insert j k v ((l, w) ∷ entries) h f = elim (Bool-cases (bytes_ltb k l)) [
  | inl e ↦ rw (e, insert) h
  | inr e ↦ elim (Bool-cases (bytes_ltb l k)) [
    | inl g ↦ rw (e, insert) (rw g f)
    | inr g ↦ rw (e, insert) (rw g f)
  ]
]

pub insert-IsSorted :
    (k v : Bytes) (m : List (Bytes × Bytes)) → IsSorted m → IsSorted (insert k v m)
unfolding insert
insert-IsSorted k v [] h = (_, _)
insert-IsSorted k v ((l, w) ∷ entries) (f, s) =
    let ih = insert-IsSorted k v entries s in
    elim (Bool-cases (bytes_ltb k l)) [
      | inl e ↦ rw (e, insert) (e, (f, s))
      | inr e ↦ elim (Bool-cases (bytes_ltb l k)) [
        | inl g ↦ rw (e, insert) (rw g (IsFirst-insert l k v entries g f, ih))
        | inr g ↦ rw (e, insert) (rw g (f, s))
      ]
    ]

heads :
    (x y : ℕ) (a b : Bool)
    → (ltb x y || (x == y && a)) ≡ false
    → (ltb y x || (y == x && b)) ≡ false
    → (x ≡ y) × (a ≡ false) × (b ≡ false)
heads x y a b h k = ground (arith, h, k)

bytes_ltb-total : (xs ys : Bytes) → bytes_ltb xs ys ≡ false → bytes_ltb ys xs ≡ false → xs ≡ ys
unfolding bytes_ltb
bytes_ltb-total [] [] h k = refl
bytes_ltb-total [] (y ∷ ys) h k = absurd (ground (arith, h))
bytes_ltb-total (x ∷ xs) [] h k = absurd (ground (arith, k))
bytes_ltb-total (x ∷ xs) (y ∷ ys) h k =
    let (e, f, g) = heads x y (bytes_ltb xs ys) (bytes_ltb ys xs) h k in
    ap (λ z. z ∷ xs) e ∙ ap (λ zs. y ∷ zs) (bytes_ltb-total xs ys f g)

bytes_eq_refl : (xs : Bytes) → bytes_eq xs xs ≡ true
unfolding bytes_eq
bytes_eq_refl [] = refl
bytes_eq_refl (x ∷ xs) = rw (==_refl x) (bytes_eq_refl xs)

and_true : (x y : ℕ) (a : Bool) → (x == y && a) ≡ true → (x ≡ y) × (a ≡ true)
and_true x y a h = ground (arith, h)

bytes_eq→≡ : (xs ys : Bytes) → bytes_eq xs ys ≡ true → xs ≡ ys
unfolding bytes_eq
bytes_eq→≡ [] [] h = refl
bytes_eq→≡ [] (y ∷ ys) h = absurd (ground (arith, h))
bytes_eq→≡ (x ∷ xs) [] h = absurd (ground (arith, h))
bytes_eq→≡ (x ∷ xs) (y ∷ ys) h =
    let (e, f) = and_true x y (bytes_eq xs ys) h in
    ap (λ z. z ∷ xs) e ∙ ap (λ zs. y ∷ zs) (bytes_eq→≡ xs ys f)

bytes_ltb_irrefl : (xs : Bytes) → bytes_ltb xs xs ≡ false
unfolding bytes_ltb
bytes_ltb_irrefl [] = refl
bytes_ltb_irrefl (x ∷ xs) = rw (le→ltb x x (omega arith), ==_refl x) (bytes_ltb_irrefl xs)

swapped :
    (name k l v w : Bytes) (r : Option Bytes)
    → bytes_ltb l k ≡ true
    → (rest : Option Bytes) → rest ≡ (if bytes_eq name k then some v else r)
    → (if bytes_eq name l then some w else rest)
      ≡ (if bytes_eq name k then some v else if bytes_eq name l then some w else r)
swapped name k l v w r g rest e = elim (Bool-cases (bytes_eq name l)) [
  | inl a ↦ elim (Bool-cases (bytes_eq name k)) [
    | inl b ↦ absurd (
        ground (
          arith,
          subst (λ z. bytes_ltb z k ≡ true) (sym (bytes_eq→≡ name l a) ∙ bytes_eq→≡ name k b) g,
          bytes_ltb_irrefl k,
        ))
    | inr b ↦ rw (a, b) refl
  ]
  | inr a ↦ rw a e
]

replaced :
    (name k l v w : Bytes) (r : Option Bytes)
    → k ≡ l
    → (if bytes_eq name l then some v else r)
      ≡ (if bytes_eq name k then some v else if bytes_eq name l then some w else r)
replaced name k l v w r e = ground (arith, e, ap (bytes_eq name) e)

-- What is inserted is found under its name, and everything else where it was.
pub lookup-insert :
    (name k v : Bytes) (m : List (Bytes × Bytes))
    → lookup name (insert k v m) ≡ (if bytes_eq name k then some v else lookup name m)
unfolding insert
lookup-insert name k v [] = refl
lookup-insert name k v ((l, w) ∷ entries) =
    let ih = lookup-insert name k v entries in
    elim (Bool-cases (bytes_ltb k l)) [
      | inl e ↦ rw (e, insert) refl
      | inr e ↦ elim (Bool-cases (bytes_ltb l k)) [
        | inl g ↦
            rw (e, insert)
              (rw g (
                swapped name k l v w (lookup name entries) g (lookup name (insert k v entries)) ih))
        | inr g ↦
            rw (e, insert)
              (rw g (replaced name k l v w (lookup name entries) (bytes_ltb-total k l e g)))
      ]
    ]
