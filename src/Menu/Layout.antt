-- ===== src/Menu/Layout.antt =====
-- one-true-pairing/src/notifier/mod.rs, `ContextMenu`: the layout of the menu and the properties of
-- its items. The IDs of items are never negative. A panic is none.
pub mod Items
pub mod Lookup
use one_true_pairing.Common.{
  ℕ, suc, ◌+◌, ◌-◌, ◌^◌, Bool, true, false, ◌||◌, Option, none, some, List, [], ◌∷◌, ◌++◌, map, ltb,
  ◌==◌, if◌then◌else◌,
}
use one_true_pairing.Common.Int.{ℤ, pos, negsuc}
use one_true_pairing.Common.Bytes.{Bytes, codes}
use one_true_pairing.Totp.Url.{bytes_eq, ◌>>=◌}

abbrev pub menu_separator_id : ℕ
menu_separator_id = 2147483646

abbrev pub menu_update_id : ℕ
menu_update_id = 2147483645

abbrev pub menu_exit_id : ℕ
menu_exit_id = 2147483647

-- The properties of an item: names and string values, each name once.
abbrev pub Properties : Type 0
Properties = List (Bytes × Bytes)

-- A `MenuLayout`, whose children are layouts.
mutual
  pub data MenuLayout : Type 0 where
    layout : ℕ → Properties → Layouts → MenuLayout

  pub data Layouts : Type 0 where
    nil : Layouts
    cons : MenuLayout → Layouts → Layouts

abbrev pub any_eq : List Bytes → Bytes → Bool
any_eq [] key = false
any_eq (pn ∷ pns) key = bytes_eq pn key || any_eq pns key

-- `property_names.is_empty() || property_names.iter().any(|pn| pn == key)`
unfoldable pub want : List Bytes → Bytes → Bool
want [] key = true
want (pn ∷ pns) key = any_eq (pn ∷ pns) key

-- One `if want(..) { props.insert(..) }`, in front of what is inserted later.
abbrev pub insert_wanted : List Bytes → Bytes → Bytes → Properties → Properties
insert_wanted property_names key value props =
    if want property_names key then (key, value) ∷ props else props

abbrev pub standard_props : List Bytes → Bytes → Properties
standard_props property_names label =
    insert_wanted property_names (codes "type") (codes "standard")
      (insert_wanted property_names (codes "label") label [])

abbrev pub separator_props : List Bytes → Properties
separator_props property_names = insert_wanted property_names (codes "type") (codes "separator") []

-- The last three entries.
abbrev pub fixed_entries : List Bytes → Layouts
fixed_entries pns = cons (layout menu_separator_id (separator_props pns) nil) (
    cons (layout menu_update_id (standard_props pns (codes "_Update menu")) nil)
      (cons (layout menu_exit_id (standard_props pns (codes "E_xit")) nil) nil))

-- The loop over the names, at index `i`; the ID `i + 1` must be an `i32`.
unfoldable pub secret_entries : List Bytes → ℕ → List Bytes → Option Layouts
secret_entries pns i [] = some (fixed_entries pns)
secret_entries pns i (secret_name ∷ names) =
    if ltb i (2 ^ 31 - 1)
    then (do
      later ← secret_entries pns (suc i) names
      some (cons (layout (i + 1) (standard_props pns secret_name) nil) later))
    else none

abbrev pub top_properties : Properties
top_properties = (codes "children-display", codes "submenu") ∷ []

-- The names of the secrets stand in the order of the map.
unfoldable pub obtain_layout_structure : List Bytes → List Bytes → Option MenuLayout
unfolding secret_entries
obtain_layout_structure names property_names = do
  menu_entries ← secret_entries property_names 0 names
  some (layout 0 top_properties menu_entries)

-- An item without its children.
pub record Item : Type 0 where
  pub id : ℕ
  pub properties : Properties

unfoldable mutual
  pub flatten_entries : MenuLayout → List Item
  flatten_entries (layout i ps children) = record { id = i; properties = ps } ∷ flatten_all children

  pub flatten_all : Layouts → List Item
  flatten_all nil = []
  flatten_all (cons l ls) = flatten_entries l ++ flatten_all ls

-- `*i == entry.id`
abbrev pub is_item_id : ℤ → ℕ → Bool
is_item_id (pos n) i = n == i
is_item_id (negsuc n) i = false

abbrev pub any_id : List ℤ → ℕ → Bool
any_id [] i = false
any_id (j ∷ ids) i = is_item_id j i || any_id ids i

abbrev pub wanted_props : List Bytes → Properties → Properties
wanted_props pns [] = []
wanted_props pns ((k, v) ∷ ps) =
    if want pns k then (k, v) ∷ wanted_props pns ps else wanted_props pns ps

unfoldable pub select : List ℤ → List Bytes → List Item → List (ℕ × Properties)
select ids pns [] = []
select ids pns (entry ∷ entries) =
    let rest = select ids pns entries in
    if any_id ids entry.id then (entry.id, wanted_props pns entry.properties) ∷ rest else rest

unfoldable pub obtain_group_properties :
    List Bytes → List ℤ → List Bytes → Option (List (ℕ × Properties))
unfolding obtain_layout_structure flatten_entries select
obtain_group_properties names ids property_names = do
  top ← obtain_layout_structure names property_names
  some (select ids property_names (flatten_entries top))

-- The revision is always 0.
unfoldable pub get_layout : List Bytes → ℤ → ℤ → List Bytes → Option (ℕ × MenuLayout)
unfolding obtain_layout_structure
get_layout names parent_id recursion_depth property_names =
    if is_item_id parent_id 0
    then (do top ← obtain_layout_structure names property_names; some (0, top))
    else some (0, layout 0 [] nil)

abbrev pub get_group_properties : List Bytes → List ℤ → List Bytes → Option (List (ℕ × Properties))
get_group_properties = obtain_group_properties

pub data PropertyResult : Type 0 where
  value : Bytes → PropertyResult
  unknown_property : PropertyResult
  unknown_object : PropertyResult

abbrev pub first_value : List (ℕ × Properties) → PropertyResult
first_value [] = unknown_object
first_value ((i, []) ∷ rest) = unknown_property
first_value ((i, (k, v) ∷ ps) ∷ rest) = value v

unfoldable pub get_property : List Bytes → ℤ → Bytes → Option PropertyResult
unfolding obtain_group_properties
get_property names id name = do
  objs_props ← obtain_group_properties names (id ∷ []) (name ∷ [])
  some (first_value objs_props)

abbrev pub about_to_show : ℤ → Bool
about_to_show id = false
