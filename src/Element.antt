-- ===== src/Element.antt =====
-- src/xsd/launch.xsd.in: the elements of a launch file, as the classes that the XSD compiler
-- generates from the schema show them. An optional attribute is an `Option`; one with a default is
-- always present.
use arclaunch.Prelude.{ℕ, Bool, Option, List}
use arclaunch.Text.{Text}

-- linkage_t
pub record Linkage : Type 0 where
  pub from : Text
  pub to : Text
  pub from_fd : ℕ
  pub to_fd : ℕ

-- externalize_t
pub record Externalize : Type 0 where
  pub node : Text
  pub internal : ℕ
  pub external : ℕ

-- env_t
pub record Env : Type 0 where
  pub key : Option Text
  pub value : Option Text

-- path_t
pub record FilePath : Type 0 where
  pub directory : List Text
  pub os : Option Text
  pub absolute : Bool

-- executable_t, with the paths of file_t
pub record Executable : Type 0 where
  pub path : List FilePath
  pub arg : List Text
  pub env : List Env

-- script_t; `base` holds what it inherits from executable_t
pub record Script : Type 0 where
  pub base : Executable
  pub open base use *
  pub interpreter : Executable

-- node_t and the types that extend it, each with its name; group_t holds a list of node_t.
mutual
  pub data Element : Type 0 where
    plain : Text → Element
    file : Text → List FilePath → Element
    executable : Text → Executable → Element
    script : Text → Script → Element
    group : Text → Elements → Element
    launch : Text → Elements → List Linkage → List Externalize → Element
    sequence_node : Text → Elements → (repeats : Bool) → Element
    socket_node :
        Text
        → Elements
        → List Linkage
        → List Externalize
        → (socket : List Linkage) → (service : Option Text) → (address : Text) → Element

  pub data Elements : Type 0 where
    nil : Elements
    cons : Element → Elements → Elements
