-- ===== src/Prelude/Effects.antt =====
-- Stateful code that may throw: what was written before a throw stays written. `undefined` stands
-- for behaviour that C++ leaves undefined, `no_fuel` for a loop that has run out of its rounds, and
-- `exited` for a process that has called `exit`.
use Prim.Native.Nat.{ℕ}
use mathlib.Core.Path.{◌≡◌}

-- `std::exception`, `ForkError`, `NodeConstructionError`.
pub data Exception : Type 0 where
  plain fork_error construction_error : Exception

pub data Outcome (S A : Type 0) : Type 0 where
  done : A → S → Outcome S A
  thrown : Exception → S → Outcome S A
  exited : ℕ → S → Outcome S A
  undefined no_fuel : Outcome S A

abbrev pub Exec : Type 0 → Type 0 → Type 0
Exec S A = S → Outcome S A

module _ {S : Type 0} where
  abbrev pub pure : {A : Type 0} → A → Exec S A
  pure a s = done a s

  abbrev pub throw : {A : Type 0} → Exception → Exec S A
  throw e s = thrown e s

  infixl 5 ◌>>=◌ ◌>>◌
  abbrev pub ◌>>=◌ : {A B : Type 0} → Exec S A → (A → Exec S B) → Exec S B
  ◌>>=◌ m f s = elim (m s) [
    | done a s' ↦ f a s'
    | thrown e s' ↦ thrown e s'
    | exited c s' ↦ exited c s'
    | undefined ↦ undefined
    | no_fuel ↦ no_fuel
  ]

  abbrev pub ◌>>◌ : {A B : Type 0} → Exec S A → Exec S B → Exec S B
  m >> k = m >>= λ _. k

  -- One step of a block whose first action returns, throws, or is undefined.
  pub bind-done :
      {A B : Type 0} (m : Exec S A) (f : A → Exec S B) {a : A} {s t : S}
      → m s ≡ done a t
      → (m >>= f) s ≡ f a t
  bind-done m f e = rw (e, ◌>>=◌)

  pub bind-thrown :
      {A B : Type 0} (m : Exec S A) (f : A → Exec S B) {x : Exception} {s t : S}
      → m s ≡ thrown x t
      → (m >>= f) s ≡ thrown x t
  bind-thrown m f e = rw (e, ◌>>=◌)

  pub bind-undefined :
      {A B : Type 0} (m : Exec S A) (f : A → Exec S B) {s : S}
      → m s ≡ undefined
      → (m >>= f) s ≡ undefined
  bind-undefined m f e = rw (e, ◌>>=◌)
