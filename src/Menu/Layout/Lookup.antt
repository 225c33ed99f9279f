-- ===== src/Menu/Layout/Lookup.antt =====
-- notifier/mod.rs, `get_property`: what is found under the ID of an item.
use mathlib.Core.Option.{some-injective}
use one_true_pairing.Common.{
  ℕ, zero, suc, ◌+◌, ◌^◌, ◌<◌, ◌≡◌, refl, ap, ◌∙◌, true, false, some, List, [], ◌∷◌, arith, ◌==◌,
  if◌then◌else◌, length, get_elem?, All,
}
use one_true_pairing.Common.Int.{ℤ, pos, negsuc}
use one_true_pairing.Common.Bytes.{Bytes, codes}
use one_true_pairing.Totp.Url.{bytes_eq}
use one_true_pairing.Menu.Layout.{
  menu_update_id, Properties, want, standard_props, top_properties, Item, is_item_id, wanted_props,
  select, PropertyResult, value, unknown_property, unknown_object, first_value, get_property,
}
use one_true_pairing.Menu.Layout.Items.{item, items_from, menu_items, obtain_group_properties_lem}

select-skip :
    (j : ℤ) (pns : List Bytes) (it : Item) (items : List Item)
    → is_item_id j it.id ≡ false
    → select (j ∷ []) pns (it ∷ items) ≡ select (j ∷ []) pns items
unfolding select
select-skip j pns it items e = rw e refl

select-none :
    (j : ℤ) (pns : List Bytes) (items : List Item)
    → All (λ it. is_item_id j it.id ≡ false) items
    → select (j ∷ []) pns items ≡ []
unfolding select
select-none j pns [] h = refl
select-none j pns (it ∷ items) h = select-skip j pns it items h.0 ∙ select-none j pns items h.1

-- The property of an entry, by its name.
abbrev pub entry_property : Bytes → Bytes → PropertyResult
entry_property key name =
    if bytes_eq key (codes "type")
    then value (codes "standard")
    else if bytes_eq key (codes "label")
    then value name
    else unknown_property

first_value-entry :
    (i : ℕ) (key name : Bytes) (rest : List (ℕ × Properties))
    → first_value ((i, wanted_props (key ∷ []) (standard_props (key ∷ []) name)) ∷ rest)
      ≡ entry_property key name
unfolding want
first_value-entry i key name rest = ground arith

select-hit :
    (j : ℤ) (pns : List Bytes) (it : Item) (items : List Item)
    → is_item_id j it.id ≡ true
    → select (j ∷ []) pns (it ∷ items)
      ≡ (it.id, wanted_props pns it.properties) ∷ select (j ∷ []) pns items
unfolding select
select-hit j pns it items e = rw e refl

select-entry :
    (pns : List Bytes) (i j : ℕ) (names : List Bytes) (k : ℕ) (name : Bytes)
    → get_elem? names k ≡ some name
    → j ≡ i + suc k
    → (found : ℕ) × (rest : List (ℕ × Properties)) × (select
          (pos j ∷ [])
          pns
          (items_from pns i names)
        ≡ (found, wanted_props pns (standard_props pns name)) ∷ rest)
select-entry pns i j [] k name e q = ground (arith, e)
select-entry pns i j (first ∷ names) zero name e q =
    let hit : (j == i + 1) ≡ true = ground (arith, q) in
    (
      i + 1,
      select (pos j ∷ []) pns (items_from pns (suc i) names),
      select-hit (pos j) pns (item (i + 1) (standard_props pns first))
            (items_from pns (suc i) names) hit
          ∙ ap
              (λ x.
                (i + 1, wanted_props pns (standard_props pns x))
                ∷ select (pos j ∷ []) pns (items_from pns (suc i) names))
              (some-injective first name e),
    )
select-entry pns i j (first ∷ names) (suc k) name e q =
    let miss : (j == i + 1) ≡ false = ground (arith, q) in
    let (found, rest, r) = select-entry pns (suc i) j names k name e (omega (arith, q)) in
    (
      found,
      rest,
      select-skip (pos j) pns (item (i + 1) (standard_props pns first))
            (items_from pns (suc i) names) miss
          ∙ r,
    )

-- Get_property of the entry number k + 1, for any key, returns what the entry of the k-th name has
-- under it, as long as there are fewer than 2^31 names.
pub get_property-entry_property :
    (names : List Bytes) (k : ℕ) (name key : Bytes)
    → length names < 2 ^ 31
    → get_elem? names k ≡ some name
    → get_property names (pos (suc k)) key ≡ some (entry_property key name)
unfolding get_property
get_property-entry_property names k name key h e =
    let (found, rest, r) = select-entry (key ∷ []) 0 (suc k) names k name e (omega arith) in
    rw (obtain_group_properties_lem names (pos (suc k) ∷ []) (key ∷ []) h) (
      ap (λ xs. some (first_value xs))
        (select-skip (pos (suc k)) (key ∷ []) (item 0 top_properties)
            (items_from (key ∷ []) 0 names) (ground arith)
          ∙ r)
      ∙ ap some (first_value-entry found key name rest))

negative_ids : (n : ℕ) (items : List Item) → All (λ it. is_item_id (negsuc n) it.id ≡ false) items
negative_ids n [] = tt
negative_ids n (it ∷ items) = (refl, negative_ids n items)

ids_between :
    (pns : List Bytes) (j i : ℕ) (names : List Bytes)
    → i + length names < j
    → j < menu_update_id
    → All (λ it. is_item_id (pos j) it.id ≡ false) (items_from pns i names)
ids_between pns j i [] h l = ground arith
ids_between pns j i (name ∷ names) h l =
    (ground arith, ids_between pns j (suc i) names (omega arith) l)

-- No item has this ID: it is negative, or above those of the secrets and below the fixed ones.
abbrev pub IsUnused : ℕ → ℤ → Type 0
IsUnused n (negsuc j) = Unit
IsUnused n (pos j) = (n < j) × (j < menu_update_id)

unused :
    (names pns : List Bytes) (id : ℤ)
    → IsUnused (length names) id
    → All (λ it. is_item_id id it.id ≡ false) (menu_items pns names)
unused names pns (negsuc j) u = negative_ids j (menu_items pns names)
unused names pns (pos j) u = (ground arith, ids_between pns j 0 names (omega arith) u.1)

-- get_property of an ID that is negative, or above those of the secrets and below the fixed ones,
-- is the error for an unknown object, as long as there are fewer than 2^31 names.
pub get_property-unknown_object :
    (names : List Bytes) (id : ℤ) (key : Bytes)
    → length names < 2 ^ 31
    → IsUnused (length names) id
    → get_property names id key ≡ some unknown_object
unfolding get_property
get_property-unknown_object names id key h u =
    rw (obtain_group_properties_lem names (id ∷ []) (key ∷ []) h) (
      ap (λ xs. some (first_value xs))
        (select-none id (key ∷ []) (menu_items (key ∷ []) names) (unused names (key ∷ []) id u)))
