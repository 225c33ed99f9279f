-- ===== src/Wlproto/Reading/Elements.antt =====
-- wlproto/src/main.rs: what is read from the elements without children, and the loop over children.
use Prim.Native.String.{String}
use text.Mathlib.TextLemmas as Text
use one_true_pairing.Common.{◌≡◌, refl, sym, ap, ◌∙◌, Option, none, some, List, [], ◌∷◌, All}
use one_true_pairing.Wlproto.Model.{
  ArgType, uint, int, fixed, string, object_id, new_id, array, file_descriptor, Arg, EnumVariant,
  try_from_str,
}
use one_true_pairing.Wlproto.Document.{Element, element, Nodes, end, text_node, unqualified, lookup}
use one_true_pairing.Wlproto.Numerals.Spelled.{parse_u32_base_prefix-IsPrefixed}
use one_true_pairing.Wlproto.Reading.{
  collect_text, or_keep, process_arg, process_enum_variant, over_children,
}
use one_true_pairing.Wlproto.Reading.Writing.{
  Notation, type_name, optional, nodes_of, describe, write_arg, write_variant, IsDescribed,
  IsVariant,
}

try_from_str-type_name : (t : ArgType) → try_from_str (type_name t) ≡ some t
unfolding try_from_str
try_from_str-type_name uint = refl
try_from_str-type_name int = refl
try_from_str-type_name fixed = refl
try_from_str-type_name string = refl
try_from_str-type_name object_id = refl
try_from_str-type_name new_id = refl
try_from_str-type_name array = refl
try_from_str-type_name file_descriptor = refl

-- Items that are written one after the other are added one after the other.
module _ {A X : Type 0} {P : X → Type 0} (child : Element → A → Option A) (write : X → Element)
    (add : List X → A → A) (add_nil : (a : A) → add [] a ≡ a)
    (add_cons : (x : X) (xs : List X) (a : A) → add xs (add (x ∷ []) a) ≡ add (x ∷ xs) a)
    (step : (x : X) (a : A) → P x → child (write x) a ≡ some (add (x ∷ []) a)) where
  pub over_children-nodes_of :
      (xs : List X) (rest : Nodes) (a : A)
      → All P xs
      → over_children child (nodes_of write xs rest) a ≡ over_children child rest (add xs a)
  unfolding over_children
  over_children-nodes_of [] rest a h = ap (over_children child rest) (sym (add_nil a))
  over_children-nodes_of (x ∷ xs) rest a h = rw (step x a h.0) (
      over_children-nodes_of xs rest (add (x ∷ []) a) h.1
      ∙ ap (over_children child rest) (add_cons x xs a))

pub process_arg-write_arg : (a : Arg) → process_arg (write_arg a) ≡ some a
unfolding process_arg
process_arg-write_arg a =
    rw (try_from_str-type_name a.arg_type) (ap some (attributes a.interface a.short_description))
  where
    built : Option String → Option String → Arg
    built i s = record {
      name = a.name;
      arg_type = a.arg_type;
      interface = i;
      short_description = s;
    }

    written : Option String → Option String → List (String × String)
    written i s =
        ("name", a.name)
        ∷ ("type", type_name a.arg_type)
        ∷ optional "interface" i (optional "summary" s [])

    attributes :
        (i s : Option String)
        → built (lookup (written i s) "interface") (lookup (written i s) "summary") ≡ built i s
    attributes none none = refl
    attributes none (some s) = refl
    attributes (some i) none = refl
    attributes (some i) (some s) = refl

pub process_enum_variant-write_variant :
    (n : Notation) (v : EnumVariant)
    → IsVariant n v
    → process_enum_variant (write_variant n v) ≡ some v
unfolding process_enum_variant
process_enum_variant-write_variant n v h =
    rw (parse_u32_base_prefix-IsPrefixed (n.value_text v) v.value h.0 h.1)
      (ap some (attributes v.short_description))
  where
    built : Option String → EnumVariant
    built s = record { name = v.name; value = v.value; short_description = s }

    attributes :
        (s : Option String)
        → built (
            lookup
              (("name", v.name) ∷ ("value", n.value_text v) ∷ optional "summary" s [])
              "summary")
          ≡ built s
    attributes none = refl
    attributes (some s) = refl

summary-describe :
    (s : Option String) → or_keep (lookup (optional "summary" s []) "summary") none ≡ s
summary-describe none = refl
summary-describe (some s) = refl

abbrev pub description : Option String → String → Element
description s t = element (unqualified "description") (optional "summary" s []) (text_node t end)

collect_text-description : (s : Option String) (t : String) → collect_text (description s t) ≡ t
unfolding collect_text
collect_text-description s t = Text.append-nil t

-- A description, if there is one, is taken over.
module _ {A : Type 0} (child : Element → A → Option A) (build : Option String → Option String → A)
    (step : (s : Option String) (t : String)
      → child (description s t) (build none none)
        ≡ some (
            build
              (or_keep (lookup (optional "summary" s []) "summary") none)
              (some (collect_text (description s t))))) where
  pub over_children-describe :
      (s d : Option String) (rest : Nodes)
      → IsDescribed s d
      → over_children child (describe s d rest) (build none none)
        ≡ over_children child rest (build s d)
  unfolding over_children
  over_children-describe none none rest h = refl
  over_children-describe (some s) none rest h = absurd h
  over_children-describe s (some d) rest h = rw (step s d) (
      ap (λ x. over_children child rest (build x (some (collect_text (description s d)))))
        (summary-describe s)
      ∙ ap (λ x. over_children child rest (build s (some x))) (collect_text-description s d))
