-- ===== src/Secrets/Session/Naming.antt =====
-- secrets/mod.rs, `get_secrets`: which names the items get.
use one_true_pairing.Common.{
  ◌≡◌, refl, ap, ◌∙◌, Bool, true, false, Option, none, some, List, [], ◌∷◌, Option-cases,
  if◌then◌else◌, inl, inr,
}
use one_true_pairing.Common.Bytes.{Bytes}
use one_true_pairing.Totp.Url.{bytes_eq}
use one_true_pairing.Secrets.Crypto.{Primitives}
use one_true_pairing.Secrets.Session.{
  Service, SecretSession, search_attributes, insert, name_items, get_secrets,
}
use one_true_pairing.Secrets.Session.NameMap.{IsSorted, lookup, insert-IsSorted, lookup-insert}

abbrev pub or_else : Option Bytes → Option Bytes → Option Bytes
or_else (some a) b = some a
or_else none b = b

chosen :
    (later : Option Bytes) (c named : Bool) (path : Bytes) (r : Option Bytes)
    → named ≡ c
    → or_else later (if c then some path else r)
      ≡ or_else
          (elim later [ none ↦ if named then some path else none | some found ↦ some found ])
          r
chosen none true named path r e = rw e refl
chosen none false named path r e = rw e refl
chosen (some found) c named path r e = refl

-- The last of the items with a name.
module _ (service : Service) where
  abbrev pub is_named : Bytes → Bytes → Bool
  is_named name path = elim (service.item_label path) [
    | none ↦ false
    | some label ↦ bytes_eq name label
  ]

  abbrev pub last_named : Bytes → List Bytes → Option Bytes
  last_named name [] = none
  last_named name (path ∷ paths) = elim (last_named name paths) [
    | none ↦ if is_named name path then some path else none
    | some later ↦ some later
  ]

module _ (primitives : Primitives) (service : Service) where
  name_items-IsSorted :
      (m : List (Bytes × Bytes)) (paths : List Bytes)
      → IsSorted m
      → IsSorted (name_items primitives service m paths)
  unfolding name_items
  name_items-IsSorted m [] s = s
  name_items-IsSorted m (path ∷ paths) s = elim (Option-cases (service.item_label path)) [
    | inl e ↦ rw (e, name_items) (name_items-IsSorted m paths s)
    | inr (name, e) ↦
        rw (e, name_items)
          (name_items-IsSorted (insert name path m) paths (insert-IsSorted name path m s))
  ]

  lookup-name_items :
      (name : Bytes) (m : List (Bytes × Bytes)) (paths : List Bytes)
      → lookup name (name_items primitives service m paths)
        ≡ or_else (last_named service name paths) (lookup name m)
  unfolding name_items
  lookup-name_items name m [] = refl
  lookup-name_items name m (path ∷ paths) = elim (Option-cases (service.item_label path)) [
    | inl e ↦
        rw (e, name_items)
          (lookup-name_items name m paths
            ∙ chosen (last_named service name paths) false (is_named service name path) path
                (lookup name m) (rw (e, is_named) refl))
    | inr (label, e) ↦
        rw (e, name_items)
          (lookup-name_items name (insert label path m) paths
            ∙ ap (or_else (last_named service name paths)) (lookup-insert name label path m)
            ∙ chosen (last_named service name paths) (bytes_eq name label)
                (is_named service name path) path (lookup name m) (rw (e, is_named) refl))
  ]

  or_else-none : (o : Option Bytes) → or_else o none ≡ o
  or_else-none none = refl
  or_else-none (some a) = refl

  -- The map of a connected session whose search succeeds has its names in ascending order, none
  -- twice, and holds under each name the path of the last of the found items whose label is the
  -- name.
  pub get_secrets-last_named :
      (session : SecretSession) (item_paths : List Bytes)
      → session.connected ≡ true
      → service.search_items session.collection_path search_attributes ≡ some item_paths
      → (name_to_path : List (Bytes × Bytes)) × (get_secrets primitives service session
          ≡ some name_to_path)
        × IsSorted name_to_path
        × ((name : Bytes) → lookup name name_to_path ≡ last_named service name item_paths)
  unfolding get_secrets
  get_secrets-last_named session item_paths c e = (
    name_items primitives service [] item_paths,
    rw (c, get_secrets) (rw e refl),
    name_items-IsSorted [] item_paths _,
    λ name.
        lookup-name_items name [] item_paths ∙ or_else-none (last_named service name item_paths),
  )
