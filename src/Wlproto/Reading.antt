-- ===== src/Wlproto/Reading.antt =====
-- wlproto/src/main.rs: from the document to the model. A panic, of `expect` or of `panic!`, is
-- none.
pub mod Writing
pub mod Elements
pub mod RoundTrip
use Prim.Native.String
use Prim.Native.String.{String}
use one_true_pairing.Common.{Option, none, some, List, [], ◌∷◌, ◌++◌, ◌||◌, if◌then◌else◌}
use one_true_pairing.Totp.Url.{◌>>=◌}
use one_true_pairing.Wlproto.Model.{
  ArgType, Arg, EnumVariant, Enum, Procedure, Interface, Protocol, try_from_str,
}
use one_true_pairing.Wlproto.Document.{
  Element, element, Nodes, end, element_node, text_node, comment_node, instruction_node, is_named,
  attribute_value, children,
}
use one_true_pairing.Wlproto.Numerals.{parse_u32, parse_u32_base_prefix}

-- `collect_text` and `collect_text_recurse`: the text of all descendants, in order.
unfoldable mutual
  pub collect_text : Element → String
  collect_text (element q attrs nodes) = collect_text_recurse nodes

  pub collect_text_recurse : Nodes → String
  collect_text_recurse end = String.[]
  collect_text_recurse (element_node e nodes) =
      String.◌++◌ (collect_text e) (collect_text_recurse nodes)
  collect_text_recurse (text_node t nodes) = String.◌++◌ t (collect_text_recurse nodes)
  collect_text_recurse (comment_node t nodes) = collect_text_recurse nodes
  collect_text_recurse (instruction_node t nodes) = collect_text_recurse nodes

-- `if let Some(summary) = .. { short_description = Some(summary) }`
abbrev pub or_keep : Option String → Option String → Option String
or_keep (some summary) old = some summary
or_keep none old = old

unfoldable pub process_arg : Element → Option Arg
process_arg arg_elem =
    if is_named arg_elem "arg"
    then (do
      name ← attribute_value arg_elem "name"
      type_name ← attribute_value arg_elem "type"
      arg_type ← try_from_str type_name
      some (record {
        name = name;
        arg_type = arg_type;
        interface = attribute_value arg_elem "interface";
        short_description = attribute_value arg_elem "summary";
      }))
    else none

-- One child in the loop over the child elements.
unfoldable pub procedure_child : Element → Procedure → Option Procedure
procedure_child child_elem p =
    if is_named child_elem "description"
    then some (record p {
      short_description = or_keep (attribute_value child_elem "summary") p.short_description;
      description = some (collect_text child_elem);
    })
    else if is_named child_elem "arg"
    then (do arg ← process_arg child_elem; some (record p { args = p.args ++ (arg ∷ []) }))
    else some p

unfoldable pub process_enum_variant : Element → Option EnumVariant
process_enum_variant variant_elem =
    if is_named variant_elem "entry"
    then (do
      name ← attribute_value variant_elem "name"
      value_str ← attribute_value variant_elem "value"
      value ← parse_u32_base_prefix value_str
      some (record {
        name = name;
        value = value;
        short_description = attribute_value variant_elem "summary";
      }))
    else none

unfoldable pub enum_child : Element → Enum → Option Enum
enum_child child_elem e =
    if is_named child_elem "description"
    then some (record e {
      short_description = or_keep (attribute_value child_elem "summary") e.short_description;
      description = some (collect_text child_elem);
    })
    else if is_named child_elem "entry"
    then (do
      variant ← process_enum_variant child_elem
      some (record e { variants = e.variants ++ (variant ∷ []) }))
    else some e

-- `for child_elem in child_elems`: the children that are elements, with what was collected so far.
module _ {A : Type 0} (child : Element → A → Option A) where
  unfoldable pub over_children : Nodes → A → Option A
  over_children end a = some a
  over_children (element_node e nodes) a = do a' ← child e a; over_children nodes a'
  over_children (text_node t nodes) a = over_children nodes a
  over_children (comment_node t nodes) a = over_children nodes a
  over_children (instruction_node t nodes) a = over_children nodes a

unfoldable pub process_procedure : Element → Option Procedure
process_procedure proc_elem =
    if is_named proc_elem "request" || is_named proc_elem "event"
    then (do
      name ← attribute_value proc_elem "name"
      over_children procedure_child (children proc_elem)
          (record { name = name; short_description = none; description = none; args = [] }))
    else none

unfoldable pub process_enum : Element → Option Enum
process_enum enum_elem =
    if is_named enum_elem "enum"
    then (do
      name ← attribute_value enum_elem "name"
      over_children enum_child (children enum_elem)
          (record { name = name; short_description = none; description = none; variants = [] }))
    else none

unfoldable pub interface_child : Element → Interface → Option Interface
interface_child child_elem i =
    if is_named child_elem "description"
    then some (record i {
      short_description = or_keep (attribute_value child_elem "summary") i.short_description;
      description = some (collect_text child_elem);
    })
    else if is_named child_elem "request"
    then (do
      request ← process_procedure child_elem
      some (record i { requests = i.requests ++ (request ∷ []) }))
    else if is_named child_elem "event"
    then (do
      event ← process_procedure child_elem
      some (record i { events = i.events ++ (event ∷ []) }))
    else if is_named child_elem "enum"
    then (do
      enumeration ← process_enum child_elem
      some (record i { enums = i.enums ++ (enumeration ∷ []) }))
    else some i

unfoldable pub process_interface : Element → Option Interface
process_interface interface_elem =
    if is_named interface_elem "interface"
    then (do
      name ← attribute_value interface_elem "name"
      version_str ← attribute_value interface_elem "version"
      version ← parse_u32 version_str
      over_children interface_child (children interface_elem) (record {
        name = name;
        version = version;
        short_description = none;
        description = none;
        requests = [];
        events = [];
        enums = [];
      }))
    else none

unfoldable pub protocol_child : Element → Protocol → Option Protocol
protocol_child child_elem p =
    if is_named child_elem "copyright"
    then some p
    else if is_named child_elem "interface"
    then (do
      interface ← process_interface child_elem
      some (record p { interfaces = p.interfaces ++ (interface ∷ []) }))
    else some p

unfoldable pub process_protocol : Element → Option Protocol
process_protocol protocol_elem =
    if is_named protocol_elem "protocol"
    then (do
      name ← attribute_value protocol_elem "name"
      over_children protocol_child (children protocol_elem)
          (record { name = name; interfaces = [] }))
    else none

-- The children that are elements.
unfoldable pub elements : Nodes → List Element
elements end = []
elements (element_node e nodes) = e ∷ elements nodes
elements (text_node t nodes) = elements nodes
elements (comment_node t nodes) = elements nodes
elements (instruction_node t nodes) = elements nodes

-- `single` of iter_ext.rs: the only item, or why there is none.
pub data Single (A : Type 0) : Type 0 where
  single_item : A → Single A
  no_item : Single A
  multiple_items : A → A → Single A

unfoldable pub single : {A : Type 0} → List A → Single A
single [] = no_item
single (first ∷ []) = single_item first
single (first ∷ second ∷ rest) = multiple_items first second

abbrev pub expect_single : Single Element → Option Element
expect_single (single_item e) = some e
expect_single no_item = none
expect_single (multiple_items first second) = none

-- `main`, from the children of the document to the model.
unfoldable pub read_document : Nodes → Option Protocol
read_document nodes = do
  root_elem ← expect_single (single (elements nodes))
  if is_named root_elem "protocol" then process_protocol root_elem else none
