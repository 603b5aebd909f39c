-- ===== src/SharedMem/Manage.antt =====
-- The program of examples/ws/src/shared_mem_manage.c, and the struct that it maps
-- (include/shared_mem.h). The call of sysconf, whose value is not used, is left out.
use arclaunch.Prelude.{
  ℕ, ◌≤◌, ◌≡◌, ◌≢◌, sym, ap, subst, ◌∙◌, true, Option, none, some, List, ◌∷◌, done, Exec, ◌>>=◌,
  ◌>>◌, pure, length, arith,
}
use arclaunch.Text.{Text, Without}
use arclaunch.SharedMem.{Shm, mem_name, create_shared_memory, destroy_shared_memory}
use arclaunch.SharedMem.Names.{IsShm, bare_short, stored_lem, created, destroyed}

-- The calls on a descriptor, which is none for -1; `none` is MAP_FAILED for an address.
pub record Mapping (W : Type 0) : Type 0 where
  pub ftruncate : Option ℕ → ℕ → W → W
  pub mmap : ℕ → Option ℕ → W → Option ℕ × W
  pub munmap : Option ℕ → ℕ → W → W
  pub close : Option ℕ → W → W

-- sizeof(struct meta_page): two semaphores of 32 bytes and three numbers of 4, padded to 8.
abbrev pub meta_size : ℕ
meta_size = 80

module _ {W : Type 0} (shm : Shm W) (map : Mapping W) where
  abbrev mapped : Option ℕ → Exec W (Option ℕ)
  mapped fd w = let r = map.mmap meta_size fd w in done r.0 r.1

  abbrev call : (W → W) → Exec W (Unit {0})
  call f w = done tt (f w)

  -- The arguments, the name of the program first.
  unfoldable pub main : List Text → Exec W ℕ
  unfolding create_shared_memory destroy_shared_memory
  main (program ∷ name ∷ argv) = do
    fd ← create_shared_memory shm name
    call (map.ftruncate fd meta_size)
    page ← mapped fd
    call (map.munmap page meta_size)
    call (map.close fd)
    destroy_shared_memory shm name
    pure 0
  main argv = pure 1

-- The calls on a descriptor leave the names of the objects alone.
pub record IsMapping {W : Type 0} (map : Mapping W) (object : W → Text → Option ℕ) : Type 0 where
  pub ftruncate : (fd : Option ℕ) (n : ℕ) (w : W) → object (map.ftruncate fd n w) ≡ object w
  pub mmap : (n : ℕ) (fd : Option ℕ) (w : W) → object (map.mmap n fd w).1 ≡ object w
  pub munmap : (page : Option ℕ) (n : ℕ) (w : W) → object (map.munmap page n w) ≡ object w
  pub close : (fd : Option ℕ) (w : W) → object (map.close fd w) ≡ object w

module _ {W : Type 0} (shm : Shm W) (map : Mapping W) where
  -- The state before the last call.
  abbrev used : Option ℕ → W → W
  used fd v =
      let r = map.mmap meta_size fd (map.ftruncate fd meta_size v) in
      map.close fd (map.munmap r.0 meta_size r.1)

  main_runs :
      (program name : Text) (argv : List Text) (fd : Option ℕ) (w v u : W)
      → create_shared_memory shm name w ≡ done fd v
      → destroy_shared_memory shm name (used fd v) ≡ done tt u
      → main shm map (program ∷ name ∷ argv) w ≡ done 0 u
  unfolding main
  main_runs program name argv fd w v u e f = rw (e, f, main, ◌>>=◌)

  used_lem :
      (object : W → Text → Option ℕ) (fd : Option ℕ) (v : W)
      → IsMapping map object
      → object (used fd v) ≡ object v
  used_lem object fd v laws =
      laws.close fd _
      ∙ laws.munmap _ meta_size _
      ∙ laws.mmap meta_size fd _
      ∙ laws.ftruncate fd meta_size v

  -- The program ends with 0 and leaves the object that it has made: for a name of at most 253 bytes
  -- under which the shared memory could be opened, the object of that name is still there when main
  -- returns.
  pub main-leaves :
      (object : W → Text → Option ℕ) (program name : Text) (argv : List Text) (fd : ℕ) (w v : W)
      → IsShm shm object
      → IsMapping map object
      → Without 0 name
      → length name ≤ 253
      → create_shared_memory shm name w ≡ done (some fd) v
      → (stored : Text) × (u : W) × (mem_name name ≡ some stored)
        × (main shm map (program ∷ name ∷ argv) w ≡ done 0 u)
        × (object u stored ≢ none)
  main-leaves object program name argv fd w v laws maps h le e =
      let (stored, is, own, long) = stored_lem name h le in
      let opened = created shm name stored fd w v is e in
      let last = used (some fd) v in
      let kept =
        laws.keeps name stored last
          (λ same. absurd (omega (arith, bare_short name, long, ap length same))) in
      let there : object v stored ≢ none =
        subst (λ t. object t stored ≢ none) opened.1
          (subst (λ n. object (shm.shm_open stored true w).1 n ≢ none) own
            (laws.opens stored true w fd opened.0)) in
      (
        stored,
        shm.shm_unlink name last,
        is,
        main_runs program name argv (some fd) w v (shm.shm_unlink name last) e
            (destroyed shm name stored last is),
        λ gone.
            there (sym (ap (λ o. o stored) (used_lem object (some fd) v maps)) ∙ sym kept ∙ gone),
      )
