-- ===== src/Wlproto/Model.antt =====
-- wlproto/src/model.rs: what the compiler keeps of a protocol. Text is a native string.
use Prim.Native.String.{String}
use text.Mathlib.Text.{◌==◌}
use one_true_pairing.Common.{ℕ, Bool, true, false, Option, some, none, List, if◌then◌else◌}

pub data ArgType : Type 0 where
  uint int fixed string object_id new_id array file_descriptor : ArgType

pub record Arg : Type 0 where
  pub name : String
  pub arg_type : ArgType
  pub interface : Option String
  pub short_description : Option String

pub record EnumVariant : Type 0 where
  pub name : String
  pub value : ℕ
  pub short_description : Option String

pub record Enum : Type 0 where
  pub name : String
  pub short_description : Option String
  pub description : Option String
  pub variants : List EnumVariant

pub record Procedure : Type 0 where
  pub name : String
  pub short_description : Option String
  pub description : Option String
  pub args : List Arg

pub record Interface : Type 0 where
  pub name : String
  pub version : ℕ
  pub short_description : Option String
  pub description : Option String
  pub requests : List Procedure
  pub events : List Procedure
  pub enums : List Enum

pub record Protocol : Type 0 where
  pub name : String
  pub interfaces : List Interface

unfoldable pub try_from_str : String → Option ArgType
try_from_str s =
    if s == "uint"
    then some uint
    else if s == "int"
    then some int
    else if s == "fixed"
    then some fixed
    else if s == "string"
    then some string
    else if s == "object"
    then some object_id
    else if s == "new_id"
    then some new_id
    else if s == "array"
    then some array
    else if s == "fd"
    then some file_descriptor
    else none

-- `arg.interface.is_some()`
abbrev pub is_some : Option String → Bool
is_some none = false
is_some (some i) = true
