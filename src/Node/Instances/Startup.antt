-- ===== src/Node/Instances/Startup.antt =====
-- The instance numbers that `startup` gives out.
use arclaunch.Prelude.{
  ℕ, zero, suc, ◌+◌, ◌≤◌, ◌<◌, ◌≡◌, refl, ◌≢◌, inl, inr, true, false, none, some, [], ◌∷◌, arith,
  length, Bool-cases, Exec, Outcome, done, ◌==◌, ltb, if◌then◌else◌, thrown, exited, undefined,
  no_fuel,
}
use arclaunch.Prelude.Map.{Map, From, IsMap, lookup, lookup-below}
use arclaunch.Os.{Os}
use arclaunch.Node.{Node}
use arclaunch.Node.Fds.{close_fds}
use arclaunch.World.{World, set_base}
use arclaunch.Node.Instances.{free_instance, instance_is_running, begin_instance, startup}

module _ {ℓ} {V : Type ℓ} where
  -- A map that holds every key from `k` up to `i` is as long as that.
  le-length :
      (m : Map V) (k i : ℕ)
      → From k m
      → ((j : ℕ) → k ≤ j → j < i → lookup j m ≢ none)
      → i ≤ k + length m
  unfolding lookup
  le-length [] k i asc h = elim (Bool-cases (ltb k i)) [
    | inl e ↦ absurd (h k (omega arith) (ground arith) refl)
    | inr e ↦ ground arith
  ]
  le-length ((j, w) ∷ m) k i asc h = elim (Bool-cases (ltb k i)) [
    | inl e ↦ ground (arith, h k, lookup-below m (suc j) k, le-length m (suc j) i asc.1 rest)
    | inr e ↦ ground arith
  ]
    where
      rest : (x : ℕ) → suc j ≤ x → x < i → lookup x m ≢ none
      rest x le lt e = h x (omega arith) lt (ground arith)

-- No instance has the number, and every lower number is in use.
pub record IsFirstFree (n : Node) (inst : ℕ) : Type 0 where
  pub free : instance_is_running inst n ≡ false
  pub used : (j : ℕ) → j < inst → instance_is_running j n ≡ true

free_from :
    (fuel inst : ℕ) (n : Node)
    → IsMap n.instances
    → length n.instances < fuel + inst
    → ((j : ℕ) → j < inst → instance_is_running j n ≡ true)
    → (r : ℕ) × (free_instance fuel inst n ≡ some r) × IsFirstFree n r
unfolding free_instance
free_from zero inst n asc h below = absurd (omega (arith, le-length n.instances 0 inst asc held))
  where
    held : (j : ℕ) → 0 ≤ j → j < inst → lookup j n.instances ≢ none
    held j le lt e = ground (arith, below j)
free_from (suc fuel) inst n asc h below = elim (Bool-cases (instance_is_running inst n)) [
  | inl e ↦ rw (free_instance, e) (free_from fuel (inst + 1) n asc (omega arith) (more e))
  | inr e ↦ (inst, rw (free_instance, e), record { free = e; used = below })
]
  where
    more :
        instance_is_running inst n ≡ true → (j : ℕ) → j < inst + 1 → instance_is_running j n ≡ true
    more e j lt = elim (Bool-cases (j == inst)) [
      | inl same ↦ let q : j ≡ inst = ground arith in rw q e
      | inr other ↦ below j (ground arith)
    ]

-- The loop of `startup` ends after at most one round more than there are instances, with the least
-- number that no running instance has.
pub free_instance_lem :
    (n : Node)
    → IsMap n.instances
    → (r : ℕ) × (free_instance (suc (length n.instances)) 0 n ≡ some r) × IsFirstFree n r
free_instance_lem n asc =
    free_from (suc (length n.instances)) 0 n asc (omega arith) (λ j lt. absurd (omega arith))

module _ {K : Type 0} (os : Os K) where
  -- The world in which `startInstance` runs.
  abbrev pub begun : ℕ → ℕ → World K → World K
  begun p inst w = set_base p (begin_instance inst (w.base p)) w

  abbrev pub closed : ℕ → World K → World K
  closed p w =
      let l = close_fds os (record { node = w.base p; kernel = w.kernel }) in
      record w { base = λ q. if p == q then l.node else w.base q; kernel = l.kernel }

  -- What is left to do once `startInstance` has returned or thrown.
  abbrev pub started : ℕ → ℕ → Outcome (World K) (Unit {0}) → Outcome (World K) ℕ
  started p inst (done u w) = done inst (closed p w)
  started p inst (thrown e w) = thrown e w
  started p inst (exited c w) = exited c w
  started p inst undefined = undefined
  started p inst no_fuel = no_fuel

  -- `startup` gives the new instance the least number that is not in use, with the handlers that
  -- were waiting for it, and runs `startInstance`. If that returns, the descriptors of the node are
  -- closed and the number is the result; if it throws, the instance stays registered and the
  -- descriptors stay open.
  pub startup_lem :
      (start_instance : ℕ → ℕ → Exec (World K) (Unit {0})) (p : ℕ) (w : World K)
      → IsMap (w.base p).instances
      → (inst : ℕ) × IsFirstFree (w.base p) inst
        × (startup os start_instance p w ≡ started p inst (start_instance p inst (begun p inst w)))
  unfolding startup
  startup_lem start_instance p w asc =
      let (inst, e, f) = free_instance_lem (w.base p) asc in
      (inst, f, rw (startup, e) (rest inst (start_instance p inst (begun p inst w))))
    where
      rest :
          (inst : ℕ) (o : Outcome (World K) (Unit {0}))
          → (elim o [
            | done u v ↦ done inst (closed p v)
            | thrown e v ↦ thrown e v
            | exited c v ↦ exited c v
            | undefined ↦ undefined
            | no_fuel ↦ no_fuel
          ])
            ≡ started p inst o
      rest inst (done u v) = refl
      rest inst (thrown e v) = refl
      rest inst (exited c v) = refl
      rest inst undefined = refl
      rest inst no_fuel = refl
