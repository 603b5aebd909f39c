-- ===== src/Samples/Memory.antt =====
-- Shared memory objects in a map of their names.
use arclaunch.Prelude.{
  ℕ, ◌≡◌, ◌≢◌, refl, Bool, true, false, Option, none, some, [], ◌∷◌, if◌then◌else◌, done, arith,
}
use arclaunch.Text.{Text, c_string, codes, text_eq, text_eq_refl, eq_of_text_eq}
use arclaunch.SharedMem.{Shm, replace_char, mem_name, create_shared_memory}
use arclaunch.SharedMem.Names.{bare, IsShm}
use arclaunch.SharedMem.Manage.{Mapping, IsMapping, main, main-leaves}

abbrev Objects : Type 0
Objects = Text → Option ℕ

abbrev with_object : Text → Option ℕ → Objects → Objects
with_object name object w other = if text_eq other name then object else w other

-- An object that is there keeps its number, and a new one is object 1.
abbrev opened : Text → Bool → Option ℕ → Objects → Option ℕ × Objects
opened name create (some n) w = (some 3, w)
opened name true none w = (some 3, with_object name (some 1) w)
opened name false none w = (none, w)

abbrev memory : Shm Objects
memory = record {
  shm_open = λ name create w. opened (bare name) create (w (bare name)) w;
  shm_unlink = λ name w. with_object (bare name) none w;
}

abbrev object : Objects → Text → Option ℕ
object w name = w name

opened_lem :
    (name : Text) (create : Bool) (old : Option ℕ) (w : Objects) (fd : ℕ)
    → w name ≡ old
    → (opened name create old w).0 ≡ some fd
    → (opened name create old w).1 name ≢ none
opened_lem name create (some n) w fd now e = λ gone. cc
opened_lem name true none w fd now e =
    let there : with_object name (some 1) w name ≡ some 1 = rw (text_eq_refl name) in λ gone. cc
opened_lem name false none w fd now e = λ gone. cc

removed_others :
    (name other : Text) (w : Objects) → other ≢ name → with_object name none w other ≡ w other
removed_others name other w ne = ground (arith, eq_of_text_eq other name)

memory-IsShm : IsShm memory object
memory-IsShm = record {
  opens = λ name create w fd e. opened_lem (bare name) create (w (bare name)) w fd refl e;
  unlinks = λ name w. rw (text_eq_refl (bare name));
  keeps = λ name other w ne. removed_others (bare name) other w ne;
}

abbrev no_objects : Objects
no_objects name = none

-- The calls on a descriptor do nothing here.
abbrev mapping : Mapping Objects
mapping = record {
  ftruncate = λ fd n w. w;
  mmap = λ n fd w. (some 4096, w);
  munmap = λ page n w. w;
  close = λ fd w. w;
}

mapping-IsMapping : IsMapping mapping object
mapping-IsMapping = record {
  ftruncate = λ fd n w. refl;
  mmap = λ n fd w. refl;
  munmap = λ page n w. refl;
  close = λ fd w. refl;
}

main-leaves_example :
    (stored : Text) × (u : Objects) × (mem_name (codes "a/b") ≡ some stored)
    × (main memory mapping (codes "manage" ∷ codes "a/b" ∷ []) no_objects ≡ done 0 u)
    × (u stored ≢ none)
unfolding mem_name create_shared_memory bare c_string replace_char
main-leaves_example =
    main-leaves memory mapping object (codes "manage") (codes "a/b") [] 3 no_objects
      (with_object (codes "_a_b") (some 1) no_objects) memory-IsShm mapping-IsMapping
      (λ e. omega (arith, e), (λ e. omega (arith, e), (λ e. omega (arith, e), tt))) (omega arith)
      refl
