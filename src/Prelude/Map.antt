-- ===== src/Prelude/Map.antt =====
-- std::map<int, V>: an association list in ascending order of its keys, which is the order in which
-- the iterators visit it.
use Prim.Native.Nat.{ℕ, suc, ◌≤◌, ◌<◌}
use mathlib.Core.Path.{◌≡◌, refl}
use mathlib.Core.Option.{Option, none, some}
use mathlib.Core.List.{List, [], ◌∷◌}
use native.Mathlib.Omega.{arith}
use arclaunch.Prelude.Tests.{ltb, ◌==◌, if◌then◌else◌}

abbrev pub Map {ℓ} : Type ℓ → Type ℓ
Map V = List (ℕ × V)

module _ {ℓ} {V : Type ℓ} where
  -- find, dereferenced
  unfoldable pub lookup : ℕ → Map V → Option V
  lookup key [] = none
  lookup key ((j, v) ∷ later) = if j == key then some v else lookup key later

  -- m[key] = v
  unfoldable pub insert : ℕ → V → Map V → Map V
  insert key v [] = (key, v) ∷ []
  insert key v ((j, old) ∷ later) =
      if ltb key j
      then (key, v) ∷ (j, old) ∷ later
      else if j == key
      then (key, v) ∷ later
      else (j, old) ∷ insert key v later

  unfoldable pub erase : ℕ → Map V → Map V
  erase key [] = []
  erase key ((j, v) ∷ later) = if j == key then later else (j, v) ∷ erase key later

  -- All keys are at least `n`, and ascending.
  abbrev pub From : ℕ → Map V → Type 0
  From n [] = Unit {0}
  From n ((j, w) ∷ m) = (n ≤ j) × From (suc j) m

  abbrev pub IsMap : Map V → Type 0
  IsMap = From 0

  pub From-weaken : (m : Map V) (n k : ℕ) → k ≤ n → From n m → From k m
  From-weaken [] n k h f = tt
  From-weaken ((j, w) ∷ m) n k h f = (omega arith, f.1)

  pub lookup-below : (m : Map V) (n k : ℕ) → k < n → From n m → lookup k m ≡ none
  unfolding lookup
  lookup-below [] n k h f = refl
  lookup-below ((j, w) ∷ m) n k h f = ground (arith, lookup-below m (suc j) k)

  pub lookup-insert :
      (key : ℕ) (v : V) (m : Map V) (c : ℕ)
      → lookup c (insert key v m) ≡ (if key == c then some v else lookup c m)
  unfolding lookup insert
  lookup-insert key v [] c = refl
  lookup-insert key v ((j, old) ∷ later) c = ground (arith, lookup-insert key v later c)

  pub lookup-erase :
      (k j n : ℕ) (m : Map V)
      → From n m
      → lookup j (erase k m) ≡ (if k == j then none else lookup j m)
  unfolding lookup erase
  lookup-erase k j n [] f = ground arith
  lookup-erase k j n ((i, w) ∷ m) f =
      ground (arith, lookup-erase k j (suc i) m f.1, lookup-below m (suc i) j)

  pub insert-From : (k n : ℕ) (v : V) (m : Map V) → n ≤ k → From n m → From n (insert k v m)
  unfolding insert
  insert-From k n v [] h f = (h, tt)
  insert-From k n v ((j, w) ∷ m) h f =
      ground (arith, insert-From k (suc j) v m, From-weaken m (suc j) (suc k))

  pub erase-From : (k n : ℕ) (m : Map V) → From n m → From n (erase k m)
  unfolding erase
  erase-From k n [] f = tt
  erase-From k n ((j, w) ∷ m) f =
      ground (arith, erase-From k (suc j) m f.1, From-weaken m (suc j) n)

  -- A predicate on every entry.
  abbrev pub Each {κ} : (ℕ → V → Type κ) → Map V → Type κ
  Each P [] = Unit
  Each P ((j, w) ∷ m) = P j w × Each P m

  pub Each-of {κ} :
      (P : ℕ → V → Type κ) (m : Map V) (n : ℕ)
      → From n m
      → ((j : ℕ) (v : V) → lookup j m ≡ some v → P j v)
      → Each P m
  unfolding lookup
  Each-of P [] n f h = tt
  Each-of P ((j, w) ∷ m) n f h = (
    h j w (ground arith),
    Each-of P m (suc j) f.1 λ i v e. h i v (ground (arith, lookup-below m (suc j) i)),
  )
