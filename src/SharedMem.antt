-- ===== src/SharedMem.antt =====
-- The named shared memory of examples/ws (src/shared_mem.c). shm_open and shm_unlink are a record
-- of operations on the system's state `W`; SharedMem/Names says what the manual pages state of them.
pub mod Manage
pub mod Names
use arclaunch.Prelude.{
  ℕ, ◌+◌, Bool, true, false, Option, none, some, List, [], ◌∷◌, ◌++◌, if◌then◌else◌, Outcome, done,
  undefined, Exec, length, leb, ◌==◌,
}
use arclaunch.Text.{Text, c_string}

-- shm_open with O_RDWR and the mode 0600, and O_CREAT where the test says so: the descriptor, or
-- none for -1.
pub record Shm (W : Type 0) : Type 0 where
  pub shm_open : Text → Bool → W → Option ℕ × W
  pub shm_unlink : Text → W → W

-- Up to the NUL of the string.
unfoldable pub replace_char : Text → ℕ → ℕ → Text
replace_char [] from to = []
replace_char (c ∷ str) from to =
    let rest = replace_char str from to in
    if c == 0 then c ∷ str else (if c == from then to else c) ∷ rest

-- The string in the array `mem_name`, which strcpy overruns when the name has more than 253 bytes.
unfoldable pub mem_name : Text → Option Text
mem_name name =
    let copied = c_string name ++ 0 ∷ [] in
    if leb (1 + length copied) 255 then some (c_string (replace_char (47 ∷ copied) 47 95)) else none

module _ {W : Type 0} (shm : Shm W) where
  unfoldable pub create_shared_memory : Text → Exec W (Option ℕ)
  create_shared_memory name w = elim (mem_name name) [
    | none ↦ undefined
    | some stored ↦ let r = shm.shm_open stored true w in done r.0 r.1
  ]

  unfoldable pub open_shared_memory : Text → Exec W (Option ℕ)
  open_shared_memory name w = elim (mem_name name) [
    | none ↦ undefined
    | some stored ↦ let r = shm.shm_open stored false w in done r.0 r.1
  ]

  -- The array is filled in and not used.
  unfoldable pub destroy_shared_memory : Text → Exec W Unit
  destroy_shared_memory name w = elim (mem_name name) [
    | none ↦ undefined
    | some stored ↦ done tt (shm.shm_unlink name w)
  ]
