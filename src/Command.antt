-- ===== src/Command.antt =====
-- The texts that an executable is started with: the static functions of src/Node.cxx, and the
-- constructors of src/ExecutableNode.cxx and src/ScriptNode.cxx.
pub mod Argv
pub mod Paths
use arclaunch.Prelude.{ℕ, Bool, true, false, Option, none, some, List, [], ◌∷◌, ◌++◌, if◌then◌else◌}
use arclaunch.Text.{Text, codes, text_eq, c_string}
use arclaunch.Element.{Env, FilePath, Executable, Script}

-- DIR_SEPERATOR
abbrev pub dir_seperator : ℕ
dir_seperator = b'/'

-- OS_STRING
abbrev pub os_string : Text
os_string = codes "linux"

unfoldable pub arg_sequence_to_arg_data : List Text → List Text
arg_sequence_to_arg_data [] = []
arg_sequence_to_arg_data (a ∷ args) = (a ++ 0 ∷ []) ∷ arg_sequence_to_arg_data args

-- To read an attribute that is not there is undefined: `none`.
unfoldable pub env_entry : Env → Option Text
env_entry e = elim e.key [
  | none ↦ none
  | some k ↦ elim e.value [ none ↦ none | some v ↦ some (k ++ codes "=" ++ v ++ 0 ∷ []) ]
]

unfoldable pub env_sequence_to_env_data : List Env → Option (List Text)
unfolding env_entry
env_sequence_to_env_data [] = some []
env_sequence_to_env_data (e ∷ envs) = elim (env_entry e) [
  | none ↦ none
  | some t ↦ elim (env_sequence_to_env_data envs) [ none ↦ none | some ts ↦ some (t ∷ ts) ]
]

unfoldable pub fuse_arg_sequence : List Text → List Text → List Text
fuse_arg_sequence args1 args2 = args1 ++ args2

unfoldable pub fuse_env_sequence : List Env → List Env → List Env
fuse_env_sequence envs1 envs2 = envs1 ++ envs2

-- The loop of `pathElemToPathData`; what it appends to the buffer.
unfoldable pub path_loop : Bool → List Text → Text
path_loop add_seperator [] = []
path_loop add_seperator (d ∷ ds) =
    (if add_seperator then dir_seperator ∷ d else d) ++ path_loop true ds

unfoldable pub path_elem_to_path_data : FilePath → Text
unfolding path_loop
path_elem_to_path_data p = path_loop p.absolute p.directory ++ 0 ∷ []

-- The loop of the ScriptNode constructor: the first path for this system. A path with no system is
-- undefined: `none`.
unfoldable pub script_path : List FilePath → Option (List Text)
unfolding path_elem_to_path_data text_eq c_string
script_path [] = some []
script_path (p ∷ ps) = elim p.os [
  | none ↦ none
  | some os ↦
      let rest = script_path ps in
      if text_eq os os_string then some (c_string (path_elem_to_path_data p) ∷ []) else rest
]

-- The fields of an ExecutableNode.
pub record ExecutableNode : Type 0 where
  pub path_seq : List FilePath
  pub arg_seq : List Text
  pub env_seq : List Env

-- The constructor of ExecutableNode.
unfoldable pub executable_node : Executable → ExecutableNode
executable_node e = record { path_seq = e.path; arg_seq = e.arg; env_seq = e.env }

unfoldable pub append_arguments : List Text → ExecutableNode → ExecutableNode
append_arguments args n = record n { arg_seq = n.arg_seq ++ args }

unfoldable pub append_environment : List Env → ExecutableNode → ExecutableNode
append_environment envs n = record n { env_seq = n.env_seq ++ envs }

-- The constructor of ScriptNode.
unfoldable pub script_node : Script → Option ExecutableNode
unfolding executable_node append_arguments append_environment
script_node s = elim (script_path s.path) [
  | none ↦ none
  | some path ↦ some (
      append_environment s.env
        (append_arguments s.arg (append_arguments path (executable_node s.interpreter))))
]
