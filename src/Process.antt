-- ===== src/Process.antt =====
-- src/ExecutableNode.cxx. The forked process is `child_main`; `execve` is a parameter there.
pub mod Child
pub mod Reap
pub mod Running
pub mod Wait
use arclaunch.Prelude.{
  ℕ, Bool, true, false, not, Option, none, some, List, [], ◌∷◌, ◌++◌, Exec, Outcome, done, thrown,
  exited, undefined, no_fuel, ◌>>=◌, ◌>>◌, pure, throw, fork_error, if◌then◌else◌,
}
use arclaunch.Prelude.Map.{Map, lookup, insert, erase}
use arclaunch.Text.{Text, text_eq, codes}
use arclaunch.Element.{FilePath}
use arclaunch.Command.{
  ExecutableNode, arg_sequence_to_arg_data, env_sequence_to_env_data, path_elem_to_path_data,
  os_string,
}
use arclaunch.Os.{Os, Forked, parent, fork_failed}
use arclaunch.Node.Fds.{overwrite_fds}
use arclaunch.World.{World, Process, Derived, executable, process_of, set_derived, deref, modify}

-- What execve starts: the path, argv and envp, as buffers.
pub record Image : Type 0 where
  pub path : Text
  pub argv : List Text
  pub envp : List Text

-- The loop of the forked process. `viable` says whether execve succeeds; if it does, the process is
-- the new program. An argument list starts with the path. A path with no system is undefined.
unfoldable pub try_paths :
    (Image → Bool) → List FilePath → List Text → List Text → Option (Option Image)
unfolding path_elem_to_path_data text_eq
try_paths viable [] args envs = some none
try_paths viable (p ∷ ps) args envs = elim p.os [
  | none ↦ none
  | some os ↦
      let rest = try_paths viable ps args envs in
      let image : Image = record {
        path = path_elem_to_path_data p;
        argv = path_elem_to_path_data p ∷ args;
        envp = envs;
      } in
      if not (text_eq os os_string) then rest else if viable image then some (some image) else rest
]

module _ {K : Type 0} where
  abbrev pub the_process : ℕ → Exec (World K) Process
  the_process p = deref λ w. process_of (w.derived p)

  abbrev pub put_process : ℕ → Process → Exec (World K) (Unit {0})
  put_process p x = modify (set_derived p (executable x))

module _ {K : Type 0} (os : Os K) where
  -- The child's side of `fork`; it ends as another program, or exits with EXIT_FAILURE. The message
  -- on its standard error is left out.
  unfoldable pub child_main : (Image → Bool) → Map ℕ → Process → Exec K Image
  child_main viable fd_map x k = elim (env_sequence_to_env_data x.command.env_seq) [
    | none ↦ undefined
    | some envs ↦
        (do
          overwrite_fds os fd_map
          λ k.
              elim (try_paths viable x.command.path_seq (arg_sequence_to_arg_data x.command.arg_seq)
                envs) [
                  | none ↦ undefined
                  | some none ↦ exited 1 k
                  | some (some image) ↦ done image k
                ])
          k
  ]

  unfoldable pub fork_process : Exec (World K) ℕ
  fork_process w = elim (os.fork w.kernel) [
    | parent pid k ↦ done pid (record w { kernel = k })
    | fork_failed k ↦ thrown fork_error (record w { kernel = k })
  ]

  -- The parent's side.
  unfoldable pub start_instance : ℕ → ℕ → Exec (World K) (Unit {0})
  unfolding env_sequence_to_env_data fork_process
  start_instance p inst = do
    modify λ w. record w { reaping = true }
    x ← the_process p
    deref λ w. env_sequence_to_env_data x.command.env_seq
    pid ← fork_process
    modify λ w. record w { running_nodes = insert pid p w.running_nodes }
    put_process p (record x { pid_instance = insert pid inst x.pid_instance })

-- operator[] on a std::map<pid_t, int>: 0 where there is no entry.
abbrev pub or_zero : Option ℕ → ℕ
or_zero none = 0
or_zero (some n) = n

module _ {K : Type 0} (finish_instance : ℕ → ℕ → ℕ → Exec (World K) (Unit {0})) where
  unfoldable pub reap_process : ℕ → ℕ → ℕ → Exec (World K) (Unit {0})
  reap_process p reaped retval = do
    modify λ w. record w { running_nodes = erase reaped w.running_nodes }
    x ← the_process p
    let inst = or_zero (lookup reaped x.pid_instance)
    put_process p (record x { pid_instance = insert reaped inst x.pid_instance })
    finish_instance p inst retval

  -- The SIGCHLD handler. `reaped` and `retval` are what `wait` and WEXITSTATUS yield.
  unfoldable pub reaper : ℕ → ℕ → Exec (World K) (Unit {0})
  unfolding reap_process
  reaper reaped retval w = elim (lookup reaped w.running_nodes) [
    | none ↦ done tt w
    | some p ↦ reap_process p reaped retval w
  ]
