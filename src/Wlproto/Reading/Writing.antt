-- ===== src/Wlproto/Reading/Writing.antt =====
-- A protocol as the XML document that describes it.
use Prim.Native.String.{String}
use one_true_pairing.Common.{◌^◌, ◌<◌, Option, none, some, List, [], ◌∷◌, All}
use one_true_pairing.Common.Bytes.{codes}
use one_true_pairing.Wlproto.Model.{
  ArgType, uint, int, fixed, string, object_id, new_id, array, file_descriptor, Arg, EnumVariant,
  Enum, Procedure, Interface, Protocol,
}
use one_true_pairing.Wlproto.Document.{
  Element, element, Nodes, end, element_node, text_node, comment_node, unqualified,
}
use one_true_pairing.Wlproto.Numerals.Spelled.{IsNumeral, IsPrefixed}

abbrev pub type_name : ArgType → String
type_name uint = "uint"
type_name int = "int"
type_name fixed = "fixed"
type_name string = "string"
type_name object_id = "object"
type_name new_id = "new_id"
type_name array = "array"
type_name file_descriptor = "fd"

-- An attribute that may be missing, in front of others.
abbrev pub optional : String → Option String → List (String × String) → List (String × String)
optional key none attrs = attrs
optional key (some v) attrs = (key, v) ∷ attrs

abbrev pub nodes_of : {A : Type 0} → (A → Element) → List A → Nodes → Nodes
nodes_of write [] rest = rest
nodes_of write (x ∷ xs) rest = element_node (write x) (nodes_of write xs rest)

-- The `description` element, if there is a description.
abbrev pub describe : Option String → Option String → Nodes → Nodes
describe summary none rest = rest
describe summary (some text) rest =
    element_node
      (element (unqualified "description") (optional "summary" summary []) (text_node text end))
      rest

abbrev pub write_arg : Arg → Element
write_arg a =
    element (unqualified "arg")
      (("name", a.name)
        ∷ ("type", type_name a.arg_type)
        ∷ optional "interface" a.interface (optional "summary" a.short_description []))
      end

-- How the numbers of a document are spelled, each where it stands.
pub record Notation : Type 0 where
  pub version_text : Interface → String
  pub value_text : EnumVariant → String

abbrev pub write_variant : Notation → EnumVariant → Element
write_variant n v =
    element (unqualified "entry")
      (("name", v.name) ∷ ("value", n.value_text v) ∷ optional "summary" v.short_description []) end

abbrev pub write_procedure : String → Procedure → Element
write_procedure kind p =
    element (unqualified kind) (("name", p.name) ∷ [])
      (describe p.short_description p.description (nodes_of write_arg p.args end))

abbrev pub write_enum : Notation → Enum → Element
write_enum n e =
    element (unqualified "enum") (("name", e.name) ∷ [])
      (describe e.short_description e.description (nodes_of (write_variant n) e.variants end))

abbrev pub write_interface : Notation → Interface → Element
write_interface n i =
    element (unqualified "interface") (("name", i.name) ∷ ("version", n.version_text i) ∷ []) (
      describe i.short_description i.description (
        nodes_of (write_procedure "request") i.requests
          (nodes_of (write_procedure "event") i.events (nodes_of (write_enum n) i.enums end))))

abbrev pub write_protocol : Notation → Protocol → Element
write_protocol n p =
    element (unqualified "protocol") (("name", p.name) ∷ [])
      (nodes_of (write_interface n) p.interfaces end)

-- Comments in front of other nodes.
abbrev pub comments : List String → Nodes → Nodes
comments [] rest = rest
comments (c ∷ cs) rest = comment_node c (comments cs rest)

-- A summary stands in the `description` element, so that there is none without a description.
abbrev pub IsDescribed : Option String → Option String → Type 0
IsDescribed (some summary) none = ⊥
IsDescribed _ _ = Unit

abbrev pub IsVariant : Notation → EnumVariant → Type 0
IsVariant n v = (v.value < 2 ^ 32) × IsPrefixed (codes (n.value_text v)) v.value

abbrev pub IsProcedure : Procedure → Type 0
IsProcedure p = IsDescribed p.short_description p.description

abbrev pub IsEnum : Notation → Enum → Type 0
IsEnum n e = IsDescribed e.short_description e.description × All (IsVariant n) e.variants

pub record IsInterface (n : Notation) (i : Interface) : Type 0 where
  pub version : i.version < 2 ^ 32
  pub version_numeral : IsNumeral 10 (codes (n.version_text i)) i.version
  pub described : IsDescribed i.short_description i.description
  pub requests : All IsProcedure i.requests
  pub events : All IsProcedure i.events
  pub enums : All (IsEnum n) i.enums

abbrev pub IsProtocol : Notation → Protocol → Type 0
IsProtocol n p = All (IsInterface n) p.interfaces
