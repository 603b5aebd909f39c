-- ===== src/Process/Child.antt =====
-- What the forked process becomes.
use arclaunch.Prelude.{
  ℕ, ◌≡◌, refl, Bool, true, false, none, some, List, [], ◌∷◌, ◌++◌, map, All, All-append, Outcome,
  done, thrown, exited, undefined, no_fuel, ◌⊎◌, inl, inr, ◌∙◌,
}
use arclaunch.Prelude.Map.{Map}
use mathlib.Core.List.{append_assoc}
use arclaunch.Text.{Text, Without, text_eq, c_string, c_string-Without}
use arclaunch.Element.{FilePath, Script}
use arclaunch.Command.{
  ExecutableNode, arg_sequence_to_arg_data, env_sequence_to_env_data, path_elem_to_path_data,
  os_string, script_node, script_path,
}
use arclaunch.Command.Argv.{c_string-arg_sequence_to_arg_data}
use arclaunch.Os.{Os, Posix}
use arclaunch.Node.Fds.{overwrite_fds}
use arclaunch.Node.Fds.Link.{Holds}
use arclaunch.Node.Fds.Overwrite.{Overwritten, overwrite_fds-Overwritten, file_of, last_for}
use arclaunch.Process.{Image, try_paths, child_main}
use arclaunch.World.{Process}

-- A path for this system.
abbrev pub IsHere : FilePath → Type 0
IsHere p = (os : Text) × (p.os ≡ some os) × (text_eq os os_string ≡ true)

-- A path for another system.
abbrev pub IsElsewhere : FilePath → Type 0
IsElsewhere p = (os : Text) × (p.os ≡ some os) × (text_eq os os_string ≡ false)

abbrev pub image_of : FilePath → List Text → List Text → Image
image_of p args envs = record {
  path = path_elem_to_path_data p;
  argv = path_elem_to_path_data p ∷ args;
  envp = envs;
}

-- A path that does not start a program is for another system, or execve refuses it.
abbrev pub IsSkipped : (Image → Bool) → List Text → List Text → FilePath → Type 0
IsSkipped viable args envs p = IsElsewhere p ⊎ (IsHere p × (viable (image_of p args envs) ≡ false))

-- The process becomes the program of the first path for this system that execve accepts, with that
-- path as `argv[0]`, whatever paths follow.
pub try_paths-first :
    (viable : Image → Bool) (before after : List FilePath) (p : FilePath) (args envs : List Text)
    → All (IsSkipped viable args envs) before
    → IsHere p
    → viable (image_of p args envs) ≡ true
    → try_paths viable (before ++ p ∷ after) args envs ≡ some (some (image_of p args envs))
unfolding try_paths
try_paths-first viable [] after p args envs skip (os, e, here) good = rw (e, here, good)
try_paths-first viable (q ∷ before) after p args envs (inl (os, e, away), skip) h good =
    rw (e, away) (try_paths-first viable before after p args envs skip h good)
try_paths-first viable (q ∷ before) after p args envs (inr ((os, e, here), bad), skip) h good =
    rw (e, here, bad) (try_paths-first viable before after p args envs skip h good)

-- If no path starts a program, the loop ends without one.
try_paths-none :
    (viable : Image → Bool) (ps : List FilePath) (args envs : List Text)
    → All (IsSkipped viable args envs) ps
    → try_paths viable ps args envs ≡ some none
unfolding try_paths
try_paths-none viable [] args envs skip = refl
try_paths-none viable (q ∷ ps) args envs (inl (os, e, away), skip) =
    rw (e, away) (try_paths-none viable ps args envs skip)
try_paths-none viable (q ∷ ps) args envs (inr ((os, e, here), bad), skip) =
    rw (e, here, bad) (try_paths-none viable ps args envs skip)

module _ {K : Type 0} {os : Os K} (px : Posix os) where
  -- The program with the numbered descriptors of the node, or an exit with 1.
  abbrev pub Becomes : K → Map ℕ → Image → Outcome K Image → Type 0
  Becomes k m image (done i k') =
      (i ≡ image) × ((c : ℕ) → px.file k' c ≡ file_of (px.file k) c (last_for c none m))
  Becomes k m image (exited code k') = code ≡ 1
  Becomes k m image (thrown e k') = ⊥
  Becomes k m image undefined = ⊥
  Becomes k m image no_fuel = ⊥

  -- The forked process of an executable node becomes the program of the first usable path, with that
  -- path and the arguments of the element as `argv`, and with every number in the node's map open on
  -- the file that was linked to it; or, if a `dup2` fails, it exits with 1.
  pub child_main-Becomes :
      (viable : Image → Bool) (m : Map ℕ) (k : K) (x : Process) (before after : List FilePath)
      (p : FilePath) (envs : List Text)
      → Holds px m k
      → x.command.path_seq ≡ before ++ p ∷ after
      → env_sequence_to_env_data x.command.env_seq ≡ some envs
      → All (IsSkipped viable (arg_sequence_to_arg_data x.command.arg_seq) envs) before
      → IsHere p
      → viable (image_of p (arg_sequence_to_arg_data x.command.arg_seq) envs) ≡ true
      → Becomes k m
          (image_of p (arg_sequence_to_arg_data x.command.arg_seq) envs)
          (child_main os viable m x k)
  unfolding child_main
  child_main-Becomes viable m k x before after p envs h paths env skip here good =
      let args = arg_sequence_to_arg_data x.command.arg_seq in
      let found = try_paths-first viable before after p args envs skip here good in
      rw (child_main, env, paths, found)
        (go (overwrite_fds os m k) (overwrite_fds-Overwritten px m k h))
    where
      image : Image
      image = image_of p (arg_sequence_to_arg_data x.command.arg_seq) envs

      go :
          (o : Outcome K (Unit {0}))
          → Overwritten px k m o
          → Becomes k m image (elim o [
            | done u k' ↦ done image k'
            | thrown e k' ↦ thrown e k'
            | exited c k' ↦ exited c k'
            | undefined ↦ undefined
            | no_fuel ↦ no_fuel
          ])
      go (done u k') f = (refl, f)
      go (exited c k') e = e
      go (thrown e k') b = b
      go undefined b = b
      go no_fuel b = b

script_path-first :
    (before after : List FilePath) (p : FilePath)
    → All IsElsewhere before
    → IsHere p
    → script_path (before ++ p ∷ after) ≡ some (c_string (path_elem_to_path_data p) ∷ [])
unfolding script_path
script_path-first [] after p away (os, e, here) = rw (e, here)
script_path-first (q ∷ before) after p ((os, e, other), away) here =
    rw (e, other) (script_path-first before after p away here)

-- The interpreter of a script gets as arguments, in this order, its own, the path of the script for
-- this system, and those of the script element; its environment is its own and then the script's.
pub script_node-argv :
    (s : Script) (before after : List FilePath) (p : FilePath)
    → s.path ≡ before ++ p ∷ after
    → All IsElsewhere before
    → IsHere p
    → All (Without 0) s.interpreter.arg
    → All (Without 0) s.arg
    → (n : ExecutableNode) × (script_node s ≡ some n)
      × (map c_string (arg_sequence_to_arg_data n.arg_seq)
          ≡ s.interpreter.arg ++ c_string (path_elem_to_path_data p) ∷ s.arg)
      × (n.env_seq ≡ s.interpreter.env ++ s.env)
      × (n.path_seq ≡ s.interpreter.path)
unfolding script_node
script_node-argv s before after p paths away here clean clean' = (
  record {
    path_seq = s.interpreter.path;
    arg_seq = (s.interpreter.arg ++ path ∷ []) ++ s.arg;
    env_seq = s.interpreter.env ++ s.env;
  },
  rw (script_node, paths, script_path-first before after p away here),
  c_string-arg_sequence_to_arg_data _ (
        All-append (Without 0) _ s.arg
          (All-append (Without 0) s.interpreter.arg (path ∷ []) clean (c_string-Without _, tt))
          clean')
      ∙ append_assoc s.interpreter.arg (path ∷ []) s.arg,
  refl,
  refl,
)
  where
    path : Text
    path = c_string (path_elem_to_path_data p)
