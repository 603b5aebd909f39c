-- ===== src/SharedMem/Names.antt =====
-- The names of the shared memory, as the manual pages of shm_open and shm_unlink state it.
use arclaunch.Prelude.{
  ℕ, ◌+◌, ◌≤◌, ◌≡◌, ◌≢◌, refl, sym, ap, subst, ◌∙◌, Bool, true, false, ◌<◌, undefined, Option, none,
  some, [], ◌∷◌, ◌++◌, if◌then◌else◌, done, length, arith, leb, ◌==◌, length-append,
}
use arclaunch.Text.{Text, c_string, Without}
use arclaunch.SharedMem.{
  Shm, replace_char, mem_name, create_shared_memory, open_shared_memory, destroy_shared_memory,
}

-- A name without its leading slashes.
unfoldable pub bare : Text → Text
bare [] = []
bare (c ∷ name) = if c == 47 then bare name else c ∷ name

-- `object w name` is the object of a name without leading slashes: a name with them stands for the
-- same object.
pub record IsShm {W : Type 0} (shm : Shm W) (object : W → Text → Option ℕ) : Type 0 where
  pub opens :
      (name : Text) (create : Bool) (w : W) (fd : ℕ)
      → (shm.shm_open name create w).0 ≡ some fd
      → object (shm.shm_open name create w).1 (bare name) ≢ none
  pub unlinks : (name : Text) (w : W) → object (shm.shm_unlink name w) (bare name) ≡ none
  pub keeps :
      (name other : Text) (w : W)
      → other ≢ bare name
      → object (shm.shm_unlink name w) other ≡ object w other

pub bare_short : (name : Text) → length (bare name) ≤ length name
unfolding bare
bare_short [] = omega arith
bare_short (c ∷ name) = ground (arith, bare_short name)

whole_string : (name : Text) → Without 0 name → c_string name ≡ name
unfolding c_string
whole_string [] h = refl
whole_string (c ∷ name) h = ground (arith, whole_string name h.1)

replaced_length :
    (name : Text)
    → Without 0 name
    → length (c_string (replace_char (name ++ 0 ∷ []) 47 95)) ≡ length name
unfolding c_string replace_char
replaced_length [] h = refl
replaced_length (c ∷ name) h = ground (arith, replaced_length name h.1)

-- The name of the object begins with an underscore, and is longer than the name given.
pub stored_lem :
    (name : Text)
    → Without 0 name
    → length name ≤ 253
    → (stored : Text) × (mem_name name ≡ some stored)
      × (bare stored ≡ stored)
      × (length stored ≡ 1 + length name)
unfolding mem_name bare replace_char c_string
stored_lem name h le =
    let rest = c_string (replace_char (name ++ 0 ∷ []) 47 95) in
    let in_array : leb (1 + length (name ++ 0 ∷ [])) 255 ≡ true =
      ground (arith, length-append name (0 ∷ [])) in
    (95 ∷ rest, rw (whole_string name h, in_array), refl, omega (arith, replaced_length name h))

-- A name of more than 253 bytes overruns the array of each of the three functions.
overruns :
    {W : Type 0} (shm : Shm W) (name : Text) (w : W)
    → Without 0 name
    → 253 < length name
    → (create_shared_memory shm name w ≡ undefined)
      × (open_shared_memory shm name w ≡ undefined)
      × (destroy_shared_memory shm name w ≡ undefined)
unfolding mem_name create_shared_memory open_shared_memory destroy_shared_memory
overruns shm name w h lt =
    let too_long : leb (1 + length (name ++ 0 ∷ [])) 255 ≡ false =
      ground (arith, length-append name (0 ∷ [])) in
    let overrun : mem_name name ≡ none = rw (whole_string name h, too_long) in
    (
      rw (overrun, create_shared_memory),
      rw (overrun, open_shared_memory),
      rw (overrun, destroy_shared_memory),
    )

pub created :
    {W : Type 0} (shm : Shm W) (name stored : Text) (fd : ℕ) (w v : W)
    → mem_name name ≡ some stored
    → create_shared_memory shm name w ≡ done (some fd) v
    → ((shm.shm_open stored true w).0 ≡ some fd) × ((shm.shm_open stored true w).1 ≡ v)
unfolding create_shared_memory
created shm name stored fd w v m e =
    let r = shm.shm_open stored true w in
    let runs : create_shared_memory shm name w ≡ done r.0 r.1 = rw (m, create_shared_memory) in
    let same : done r.0 r.1 ≡ done (some fd) v = sym runs ∙ e in (cc, cc)

pub destroyed :
    {W : Type 0} (shm : Shm W) (name stored : Text) (v : W)
    → mem_name name ≡ some stored
    → destroy_shared_memory shm name v ≡ done tt (shm.shm_unlink name v)
unfolding destroy_shared_memory
destroyed shm name stored v m = rw (m, destroy_shared_memory)

-- The object that create_shared_memory has opened, for a name of at most 253 bytes, is still there
-- after destroy_shared_memory with the same name: it unlinks another name.
pub destroy_shared_memory-create_shared_memory :
    {W : Type 0} (shm : Shm W) (object : W → Text → Option ℕ) (name : Text) (fd : ℕ) (w v : W)
    → IsShm shm object
    → Without 0 name
    → length name ≤ 253
    → create_shared_memory shm name w ≡ done (some fd) v
    → (stored : Text) × (u : W) × (mem_name name ≡ some stored)
      × (destroy_shared_memory shm name v ≡ done tt u)
      × (object u stored ≡ object v stored)
      × (object u stored ≢ none)
destroy_shared_memory-create_shared_memory shm object name fd w v laws h le e =
    let s = stored_lem name h le in
    let opened = created shm name s.0 fd w v s.1 e in
    let kept =
      laws.keeps name s.0 v
        (λ same. absurd (omega (arith, bare_short name, s.3, ap length same))) in
    let there : object v s.0 ≢ none =
      subst (λ t. object t s.0 ≢ none) opened.1
        (subst (λ n. object (shm.shm_open s.0 true w).1 n ≢ none) s.2
          (laws.opens s.0 true w fd opened.0)) in
    (
      s.0,
      shm.shm_unlink name v,
      s.1,
      destroyed shm name s.0 v s.1,
      kept,
      λ none_now. there (sym kept ∙ none_now),
    )
