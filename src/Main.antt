-- ===== src/Main.antt =====
-- src/main.cxx: the command line, and the exit status.
use arclaunch.Prelude.{
  ℕ, suc, Bool, true, false, Option, none, some, List, [], ◌∷◌, ◌++◌, Exec, Outcome, done,
  if◌then◌else◌, ◌==◌, ◌&&◌,
}
use arclaunch.Text.{Text, codes, text_eq}
pub mod Nodes
pub mod Options
pub mod Pipe

-- What the options have done: how often the version was printed, and the static `persist`.
pub record Settings : Type 0 where
  pub versions : ℕ
  pub persist : Bool

abbrev pub version_option : Text
version_option = codes "--version"

abbrev pub persist_option : Text
persist_option = codes "--persist"

unfoldable pub version_act : Settings → Settings
version_act s = record s { versions = suc s.versions }

unfoldable pub persist_act : Settings → Settings
persist_act s = record s { persist = true }

-- arg[0] == '-' && arg[1] == '-'; a text ends with a NUL.
unfoldable pub is_option : Text → Bool
is_option [] = false
is_option (a ∷ []) = false
is_option (a ∷ b ∷ rest) = a == b'-' && b == b'-'

-- The loop over `options`; `none` if `c` reaches 2.
unfoldable pub option_act : Text → Settings → Option Settings
unfolding version_act persist_act text_eq
option_act arg s =
    if text_eq arg version_option
    then some (version_act s)
    else if text_eq arg persist_option
    then some (persist_act s)
    else none

-- The loop over the arguments after the program's name: the settings and the arguments from `argn`.
unfoldable pub read_options : List Text → Settings → Settings × List Text
unfolding is_option option_act
read_options [] s = (s, [])
read_options (arg ∷ args) s = elim (is_option arg) [
  | false ↦ (s, arg ∷ args)
  | true ↦ elim (option_act arg s) [ none ↦ (s, arg ∷ args) | some s' ↦ read_options args s' ]
]

-- How the `try` block of `main` ends.
pub data Ending : Type 0 where
  returned xml_exception other_exception : Ending

unfoldable pub exit_status : Ending → ℕ
exit_status returned = 0
exit_status xml_exception = 1
exit_status other_exception = 0

unfoldable pub run_file : (Settings → Text → Ending) → Settings × List Text → ℕ
unfolding exit_status
run_file run (s, []) = 1
run_file run (s, file ∷ rest) = exit_status (run s file)

abbrev pub no_settings : Settings
no_settings = record { versions = 0; persist = false }

-- The exit status. `run` is the `try` block on the file that the first remaining argument names.
unfoldable pub main : (Settings → Text → Ending) → List Text → ℕ
unfolding run_file
main run args = run_file run (read_options args no_settings)

-- What `main` calls outside of the file: the file system with the library's state is `F`.
pub record Launcher (F : Type 0) : Type 0 where
  -- launch, execute and startup
  pub start : Text → F → Ending × F
  -- mkfifo(fifo_name, S_IRUSR | S_IWUSR) == 0
  pub mkfifo : F → Bool × F
  -- open and read of the pipe
  pub read_fifo : F → F
  pub unlink : F → F
  pub wait_for : F → Ending × F

module _ {F : Type 0} (l : Launcher F) where
  -- The part of the block that --persist is for.
  unfoldable pub persist_block : Settings → F → F
  persist_block s f =
      let (made_fifo, g) = l.mkfifo f in
      if s.persist then (if made_fifo then l.unlink (l.read_fifo g) else g) else f

  -- The `try` block. It is never left between `mkfifo` and `unlink`, so that `made_fifo` is false at
  -- its end.
  unfoldable pub try_block : Settings → Text → F → Ending × F
  unfolding persist_block
  try_block s file f =
      let (ending, g) = l.start file f in
      elim ending [ returned ↦ l.wait_for (persist_block s g) | e ↦ (e, g) ]

  -- The handlers.
  unfoldable pub catch_block : Ending → F → F
  catch_block returned f = f
  catch_block xml_exception f = l.unlink f
  catch_block other_exception f = f

  -- What `main` does after the options, and `main`, with what it leaves.
  unfoldable pub run_rest : Settings × List Text → F → ℕ × F
  unfolding try_block catch_block
  run_rest (s, []) f = (1, f)
  run_rest (s, file ∷ others) f =
      let (ending, g) = try_block s file f in (exit_status ending, catch_block ending g)

  unfoldable pub run_program : List Text → F → ℕ × F
  unfolding read_options run_rest
  run_program args f = run_rest (read_options args no_settings) f
