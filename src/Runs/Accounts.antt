-- ===== src/Runs/Accounts.antt =====
-- Who holds an open descriptor: a node, a running sequence, or whoever had it open from the start.
pub mod Holders
pub mod Kept
pub mod Links
pub mod Local
pub mod Nodes
pub mod Returned
pub mod Running
use arclaunch.Prelude.{
  Option, ℕ, ◌≡◌, ◌≢◌, refl, none, some, ◌⊎◌, Outcome, done, thrown, exited, undefined, no_fuel,
  Exec, ◌>>=◌, ◌>>◌,
}
use arclaunch.Prelude.Map.{Map, lookup}
use arclaunch.Os.{Os, Posix}
use arclaunch.World.{World, SequenceNode, RunningSequence, sequence_of, deref}
use arclaunch.Runs.{After}
use arclaunch.Runs.WellFormed.{IsWellFormed}

abbrev pub Has : ℕ → Map ℕ → Type 0
Has c m = (fd : ℕ) × (lookup c m ≡ some fd)

pub data Held {K : Type 0} (w : World K) (c : ℕ) : Type 0 where
  by_node : (p : ℕ) → Has c (w.base p).fd_map → Held w c
  by_sequence :
      (p inst : ℕ) (s : SequenceNode) (r : RunningSequence)
      → sequence_of (w.derived p) ≡ some s
      → lookup inst s.sequences ≡ some r
      → Has c r.node.fd_map
      → Held w c

-- Each open descriptor is held, or is one of those that the library did not open. No node is a
-- socket node, whose accepting sockets stand elsewhere.
pub record IsAccounted {K : Type 0} {os : Os K} (px : Posix os) (Others : ℕ → Type 0) (w : World K)
    : Type 0 where
  pub well_formed : IsWellFormed w
  pub no_sockets : (p : ℕ) → w.sockets p ≡ none
  pub open_ones : (c : ℕ) → px.file w.kernel c ≢ none → Held w c ⊎ Others c

-- What holds of the state if the operation returns.
abbrev pub Post : {S A : Type 0} → (S → Type 0) → Outcome S A → Type 0
Post P (done a s) = P s
Post P (thrown e s) = Unit {0}
Post P (exited c s) = Unit {0}
Post P undefined = Unit {0}
Post P no_fuel = Unit {0}

module _ {S : Type 0} where
  pub Post-bind :
      {A B : Type 0} (P Q : S → Type 0) (m : Exec S A) (f : A → Exec S B) (s : S)
      → Post P (m s)
      → ((a : A) (t : S) → P t → Post Q (f a t))
      → Post Q ((m >>= f) s)
  Post-bind {A} {B} P Q m f s h k = bound (m s) h
    where
      bound : (o : Outcome S A) → Post P o → Post Q (((λ s. o) >>= f) s)
      bound (done a t) h = k a t h
      bound (thrown e t) h = tt
      bound (exited c t) h = tt
      bound undefined h = tt
      bound no_fuel h = tt

  -- An invariant of the operations that return, as a relation.
  pub Post-After :
      {A : Type 0} (P : S → Type 0) (s : S) (o : Outcome S A)
      → (P s → Post P o)
      → After (λ s t. P s → P t) (λ s t. Unit {0}) s o
  Post-After P s (done a t) h = h
  Post-After P s (thrown e t) h = tt
  Post-After P s (exited c t) h = tt
  Post-After P s undefined h = tt
  Post-After P s no_fuel h = tt

module _ {K : Type 0} where
  pub Post-deref :
      {A B : Type 0} (Q : World K → Type 0) (f : World K → Option A) (k : A → Exec (World K) B)
      (w : World K)
      → ((a : A) → f w ≡ some a → Post Q (k a w))
      → Post Q ((deref f >>= k) w)
  Post-deref {A} {B} Q f k w h = read (f w) h
    where
      read :
          (o : Option A)
          → ((a : A) → o ≡ some a → Post Q (k a w))
          → Post Q ((deref (λ v. o) >>= k) w)
      read none h = tt
      read (some a) h = h a refl

  pub Post-deref_deref :
      {A B C : Type 0} (Q : World K → Type 0) (f : World K → Option A) (g : A → World K → Option B)
      (k : B → Exec (World K) C) (w : World K)
      → ((a : A) (b : B) → f w ≡ some a → g a w ≡ some b → Post Q (k b w))
      → Post Q (((deref f >>= λ a. deref (g a)) >>= k) w)
  Post-deref_deref {A} {B} {C} Q f g k w h = read (f w) h
    where
      read :
          (o : Option A)
          → ((a : A) (b : B) → o ≡ some a → g a w ≡ some b → Post Q (k b w))
          → Post Q (((deref (λ v. o) >>= λ a. deref (g a)) >>= k) w)
      read none h = tt
      read (some a) h = Post-deref Q (g a) k w (λ b e. h a b refl e)
