-- ===== src/Node/Fds/Overwrite.antt =====
-- What `overwriteFds` does in the forked process.
use arclaunch.Prelude.{
  ℕ, suc, ◌≤◌, ◌<◌, ◌≡◌, refl, Option, none, some, [], ◌∷◌, arith, Outcome, done, thrown, exited,
  undefined, no_fuel, ◌==◌, if◌then◌else◌,
}
use arclaunch.Prelude.Map.{Map, From, Each, Each-of}
use arclaunch.Os.{Os, Posix, Reply, success, busy, failed, Dups, Answers}
use arclaunch.Node.Fds.{overwrite_fds}
use arclaunch.Node.Fds.Link.{Holds}

-- The descriptor that ends up as `fd`: the greatest of those recorded for it.
abbrev pub last_for : ℕ → Option ℕ → Map ℕ → Option ℕ
last_for fd found [] = found
last_for fd found ((n, fd') ∷ m) = last_for fd (if fd' == fd then some n else found) m

abbrev pub file_of : (ℕ → Option ℕ) → ℕ → Option ℕ → Option ℕ
file_of f c none = f c
file_of f c (some n) = f n

module _ {K : Type 0} {os : Os K} (px : Posix os) where
  -- All numbers at once, as at the start: the sources survive until their turn.
  abbrev pub OverwrittenBy : K → (ℕ → Option ℕ) → Map ℕ → Outcome K (Unit {0}) → Type 0
  OverwrittenBy k found m (done u k') =
      (c : ℕ) → px.file k' c ≡ file_of (px.file k) c (last_for c (found c) m)
  OverwrittenBy k found m (exited code k') = code ≡ 1
  OverwrittenBy k found m (thrown e k') = ⊥
  OverwrittenBy k found m undefined = ⊥
  OverwrittenBy k found m no_fuel = ⊥

  abbrev pub Overwritten : K → Map ℕ → Outcome K (Unit {0}) → Type 0
  Overwritten k m o = OverwrittenBy k (λ c. none) m o

  overwrite_fds_lem :
      (k₀ : K) (found : ℕ → Option ℕ) (m : Map ℕ) (n : ℕ) (k : K)
      → From n m
      → Each (λ j fd. fd < j) m
      → ((c : ℕ) → px.file k c ≡ file_of (px.file k₀) c (found c))
      → ((x : ℕ) → n ≤ x → px.file k x ≡ px.file k₀ x)
      → OverwrittenBy k₀ found m (overwrite_fds os m k)
  unfolding overwrite_fds
  overwrite_fds_lem k₀ found [] n k asc up h rest = h
  overwrite_fds_lem k₀ found ((j, fd) ∷ m) n k asc up h rest =
      answer (os.dup2 k j fd) (px.dup2_lem k j fd) λ k' d.
        overwrite_fds_lem k₀ (λ c. if fd == c then some j else found c) m (suc j) k' asc.1 up.1
          (λ c. ground (arith, d.others c, h c, rest j))
          (λ x le. ground (arith, d.others x, rest x))
    where
      answer :
          (r : Reply K)
          → Answers px.file k j fd r
          → ((k' : K)
              → Dups px.file k j fd k'
              → OverwrittenBy k₀
                  (λ c. if fd == c then some j else found c)
                  m
                  (overwrite_fds os m k'))
          → OverwrittenBy k₀ found ((j, fd) ∷ m) (elim r [
            | success k' ↦ overwrite_fds os m k'
            | busy k' ↦ exited 1 k'
            | failed k' ↦ exited 1 k'
          ])
      answer (success k') d next = next k' d
      answer (busy k') d next = refl
      answer (failed k') d next = refl

  -- For the descriptors of a node, `overwriteFds` gives each number the open file that the greatest
  -- descriptor recorded for it had before the call, although the numbers are overwritten one after
  -- the other; a number for which nothing is recorded keeps its file. If a `dup2` fails, the process
  -- exits with status 1.
  pub overwrite_fds-Overwritten :
      (m : Map ℕ) (k : K) → Holds px m k → Overwritten k m (overwrite_fds os m k)
  overwrite_fds-Overwritten m k h =
      overwrite_fds_lem k (λ c. none) m 0 k h.is_map
        (Each-of _ m 0 h.is_map (λ j fd e. (h.entry j fd e).0)) (λ c. refl) (λ x le. refl)
