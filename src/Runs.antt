-- ===== src/Runs.antt =====
-- Properties of whole runs of the library: relations between the state before an operation and the
-- one that it leaves, whichever node is started or ends and however the calls nest.
pub mod Accounts
pub mod Blocks
pub mod Calls
pub mod Closed
pub mod Sockets
pub mod Events
pub mod Fds
pub mod Launches
pub mod Plain
pub mod Reached
pub mod Sequences
pub mod Shape
pub mod WellFormed
use arclaunch.Prelude.{
  ℕ, ◌≡◌, refl, sym, subst, Bool, true, false, Option, none, some, Exec, Outcome, done, thrown,
  exited, undefined, no_fuel, ◌>>=◌, ◌>>◌, if◌then◌else◌,
}
use arclaunch.World.{World, deref}

-- Between `s` and the state that is left there is `R` if the operation returns, and `T` if it throws
-- or the process ends.
abbrev pub After : {S A : Type 0} → (S → S → Type 0) → (S → S → Type 0) → S → Outcome S A → Type 0
After R T s (done a t) = R s t
After R T s (thrown e t) = T s t
After R T s (exited c t) = T s t
After R T s undefined = Unit {0}
After R T s no_fuel = Unit {0}

pub record IsRun {S : Type 0} (R T : S → S → Type 0) : Type 0 where
  pub same : (s : S) → R s s
  pub then_run : (s t u : S) → R s t → R t u → R s u
  pub then_throw : (s t u : S) → R s t → T t u → T s u
  pub gives_up : (s t : S) → R s t → T s t

module _ {S : Type 0} (R T : S → S → Type 0) (run : IsRun R T) where
  pub After-then : {A : Type 0} (s t : S) (o : Outcome S A) → R s t → After R T t o → After R T s o
  After-then s t (done a u) r h = run.then_run s t u r h
  After-then s t (thrown e u) r h = run.then_throw s t u r h
  After-then s t (exited c u) r h = run.then_throw s t u r h
  After-then s t undefined r h = tt
  After-then s t no_fuel r h = tt

  -- `v` is a state on the way from `s`.
  pub After-bind_at :
      {A B : Type 0} (m : Exec S A) (f : A → Exec S B) (s v : S)
      → After R T s (m v)
      → ((a : A) (t : S) → m v ≡ done a t → After R T t (f a t))
      → After R T s ((m >>= f) v)
  After-bind_at m f s v h k = bound (m v) h k
    where
      bound :
          (o : Outcome S _)
          → After R T s o
          → ((a : _) (t : S) → o ≡ done a t → After R T t (f a t))
          → After R T s (elim o [
            | done a t ↦ f a t
            | thrown e t ↦ thrown e t
            | exited c t ↦ exited c t
            | undefined ↦ undefined
            | no_fuel ↦ no_fuel
          ])
      bound (done a t) h k = After-then s t (f a t) h (k a t refl)
      bound (thrown e t) h k = h
      bound (exited c t) h k = h
      bound undefined h k = tt
      bound no_fuel h k = tt

  pub After-bind :
      {A B : Type 0} (m : Exec S A) (f : A → Exec S B) (s : S)
      → After R T s (m s)
      → ((a : A) (t : S) → m s ≡ done a t → After R T t (f a t))
      → After R T s ((m >>= f) s)
  After-bind m f s h k = After-bind_at m f s s h k

  pub After-if :
      {A : Type 0} (b : Bool) (o o' : Outcome S A) (s : S)
      → After R T s o
      → After R T s o'
      → After R T s (if b then o else o')
  After-if true o o' s h k = h
  After-if false o o' s h k = k

  pub After-choice :
      {A : Type 0} (b : Bool) (m n : Exec S A) (s : S)
      → After R T s (m s)
      → After R T s (n s)
      → After R T s ((if b then m else n) s)
  After-choice true m n s h k = h
  After-choice false m n s h k = k

module _ {K : Type 0} (R T : World K → World K → Type 0) where
  -- `v` is a state on the way from `w`.
  pub After-deref_at :
      {A B : Type 0} (f : World K → Option A) (k : A → Exec (World K) B) (w v : World K)
      → ((a : A) → f v ≡ some a → After R T w (k a v))
      → After R T w ((deref f >>= k) v)
  After-deref_at f k w v h = read (f v) h
    where
      read :
          (o : Option _)
          → ((a : _) → o ≡ some a → After R T w (k a v))
          → After R T w ((deref (λ x. o) >>= k) v)
      read none h = tt
      read (some a) h = h a refl

  pub After-deref :
      {A B : Type 0} (f : World K → Option A) (k : A → Exec (World K) B) (w : World K)
      → ((a : A) → f w ≡ some a → After R T w (k a w))
      → After R T w ((deref f >>= k) w)
  After-deref f k w h = After-deref_at f k w w h

  -- A pointer behind a pointer.
  pub After-deref_deref :
      {A B C : Type 0} (f : World K → Option A) (g : A → World K → Option B)
      (k : B → Exec (World K) C) (w : World K)
      → ((a : A) (b : B) → f w ≡ some a → g a w ≡ some b → After R T w (k b w))
      → After R T w (((deref f >>= λ a. deref (g a)) >>= k) w)
  After-deref_deref f g k w h = read (f w) h
    where
      read :
          (o : Option _)
          → ((a : _) (b : _) → o ≡ some a → g a w ≡ some b → After R T w (k b w))
          → After R T w (((deref (λ v. o) >>= λ a. deref (g a)) >>= k) w)
      read none h = tt
      read (some a) h = After-deref (g a) k w (λ b e. h a b refl e)
