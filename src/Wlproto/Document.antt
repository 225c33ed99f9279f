-- ===== src/Wlproto/Document.antt =====
-- The XML documents that wlproto/src/main.rs reads: the tree that the `sxd_document` crate documents,
-- with what the source asks of an element.
use Prim.Native.String.{String}
use text.Mathlib.Text.{◌==◌}
use one_true_pairing.Common.{Bool, false, Option, none, some, List, [], ◌∷◌, if◌then◌else◌}

-- A name with its namespace.
pub record QName : Type 0 where
  pub namespace_uri : Option String
  pub local_part : String

mutual
  -- Name, attributes without a namespace, and children.
  pub data Element : Type 0 where
    element : QName → List (String × String) → Nodes → Element

  pub data Nodes : Type 0 where
    end : Nodes
    element_node : Element → Nodes → Nodes
    text_node : String → Nodes → Nodes
    comment_node : String → Nodes → Nodes
    instruction_node : String → Nodes → Nodes

-- `QName::new`
abbrev pub unqualified : String → QName
unqualified s = record { namespace_uri = none; local_part = s }

abbrev pub is_qname : Option String → String → String → Bool
is_qname none l s = l == s
is_qname (some ns) l s = false

-- `elem.name() == QName::new(s)`
abbrev pub is_named : Element → String → Bool
is_named (element q attrs nodes) s = is_qname q.namespace_uri q.local_part s

abbrev pub lookup : List (String × String) → String → Option String
lookup [] s = none
lookup ((k, v) ∷ attrs) s = if k == s then some v else lookup attrs s

abbrev pub attribute_value : Element → String → Option String
attribute_value (element q attrs nodes) s = lookup attrs s

abbrev pub children : Element → Nodes
children (element q attrs nodes) = nodes
