-- ===== src/Menu/Layout/Items.antt =====
-- notifier/mod.rs: the items of the menu, one after the other, and what is found under their IDs.

use one_true_pairing.Common.{
  ℕ, suc, ◌+◌, ◌-◌, ◌^◌, ◌<◌, ◌≤◌, ◌≡◌, ◌≢◌, refl, sym, ap, some, List, [], ◌∷◌, arith, lt→ltb,
  length, All, subst,
}
use one_true_pairing.Common.Int.{ℤ, pos}
use one_true_pairing.Common.Bytes.{Bytes, codes}
use one_true_pairing.Menu.Layout.{
  menu_separator_id, menu_update_id, menu_exit_id, Properties, MenuLayout, layout, Layouts, nil,
  cons, standard_props, separator_props, fixed_entries, secret_entries, top_properties,
  obtain_layout_structure, Item, flatten_entries, flatten_all, select, obtain_group_properties,
  get_layout,
}

abbrev pub item : ℕ → Properties → Item
item i ps = record { id = i; properties = ps }

-- The items for the names, from the index `i` on, and the fixed ones.
abbrev pub items_from : List Bytes → ℕ → List Bytes → List Item
items_from pns i [] =
    item menu_separator_id (separator_props pns)
    ∷ item menu_update_id (standard_props pns (codes "_Update menu"))
    ∷ item menu_exit_id (standard_props pns (codes "E_xit"))
    ∷ []
items_from pns i (name ∷ names) =
    item (i + 1) (standard_props pns name) ∷ items_from pns (suc i) names

-- All items, the menu itself first.
abbrev pub menu_items : List Bytes → List Bytes → List Item
menu_items pns names = item 0 top_properties ∷ items_from pns 0 names

secret_entries_lem :
    (pns : List Bytes) (i : ℕ) (names : List Bytes)
    → i + length names < 2 ^ 31
    → (ls : Layouts) × (secret_entries pns i names ≡ some ls)
      × (flatten_all ls ≡ items_from pns i names)
unfolding secret_entries flatten_entries
secret_entries_lem pns i [] h = (fixed_entries pns, refl, refl)
secret_entries_lem pns i (name ∷ names) h =
    let (ls, e, f) = secret_entries_lem pns (suc i) names (omega arith) in
    (
      cons (layout (i + 1) (standard_props pns name) nil) ls,
      rw (lt→ltb i (2 ^ 31 - 1) (omega arith), secret_entries) (rw e refl),
      ap (λ xs. item (i + 1) (standard_props pns name) ∷ xs) f,
    )

pub obtain_layout_structure_lem :
    (names pns : List Bytes)
    → length names < 2 ^ 31
    → (top : MenuLayout) × (obtain_layout_structure names pns ≡ some top)
      × (flatten_entries top ≡ menu_items pns names)
unfolding obtain_layout_structure flatten_entries
obtain_layout_structure_lem names pns h =
    let (ls, e, f) = secret_entries_lem pns 0 names (omega arith) in
    (layout 0 top_properties ls, rw e refl, ap (λ xs. item 0 top_properties ∷ xs) f)

pub obtain_group_properties_lem :
    (names : List Bytes) (ids : List ℤ) (pns : List Bytes)
    → length names < 2 ^ 31
    → obtain_group_properties names ids pns ≡ some (select ids pns (menu_items pns names))
unfolding obtain_group_properties
obtain_group_properties_lem names ids pns h =
    let (top, e, f) = obtain_layout_structure_lem names pns h in
    rw e (ap (λ xs. some (select ids pns xs)) f)

-- No ID occurs twice.
abbrev pub IsDistinct : List Item → Type 0
IsDistinct [] = Unit
IsDistinct (it ∷ items) = All (λ other. it.id ≢ other.id) items × IsDistinct items

items_from-above :
    (pns : List Bytes) (j i : ℕ) (names : List Bytes)
    → j ≤ i
    → i + length names < menu_update_id
    → All (λ other. j ≢ other.id) (items_from pns i names)
items_from-above pns j i [] h l = ground arith
items_from-above pns j i (name ∷ names) h l =
    (omega arith, items_from-above pns j (suc i) names (omega arith) (omega arith))

items_from-IsDistinct :
    (pns : List Bytes) (i : ℕ) (names : List Bytes)
    → i + length names < menu_update_id
    → IsDistinct (items_from pns i names)
items_from-IsDistinct pns i [] l = ground arith
items_from-IsDistinct pns i (name ∷ names) l = (
  items_from-above pns (i + 1) (suc i) names (omega arith) (omega arith),
  items_from-IsDistinct pns (suc i) names (omega arith),
)

-- Get_layout of the root returns a menu in which no ID occurs twice, as long as there are fewer
-- names than the lowest of the fixed IDs.
pub get_layout-IsDistinct :
    (names pns : List Bytes) (recursion_depth : ℤ)
    → length names < menu_update_id
    → (top : MenuLayout) × (get_layout names (pos 0) recursion_depth pns ≡ some (0, top))
      × IsDistinct (flatten_entries top)
unfolding get_layout
get_layout-IsDistinct names pns recursion_depth h =
    let (top, e, f) = obtain_layout_structure_lem names pns (omega arith) in
    (
      top,
      rw e refl,
      subst IsDistinct (sym f) (
        items_from-above pns 0 0 names (omega arith) (omega arith),
        items_from-IsDistinct pns 0 names (omega arith),
      ),
    )
