-- ===== src/Node/Instances/Waits.antt =====
-- Node::waitFor.
use arclaunch.Prelude.{
  ℕ, zero, suc, ◌≤◌, ◌<◌, ◌≡◌, refl, ap, ◌∙◌, true, false, List, [], ◌∷◌, Exec, done, ◌>>=◌, length,
  arith,
}
use arclaunch.Prelude.Map.{Map, lookup}
use arclaunch.Node.{CompletionHandler}
use arclaunch.Node.Instances.{wait_for, is_running, instance_is_running}
use arclaunch.World.{World}

module _ {K : Type 0} (wait_for_instance : ℕ → ℕ → Exec (World K) (Unit {0})) where
  -- The virtual method returns for an instance that is running, which it then is no more, and it
  -- leaves fewer instances running.
  abbrev pub EndsInstance : ℕ → Type 0
  EndsInstance p =
      (num : ℕ) (w : World K)
      → instance_is_running num (w.base p) ≡ true
      → (v : World K) × (wait_for_instance p num w ≡ done tt v)
        × (length (v.base p).instances < length (w.base p).instances)

  idle :
      (fuel p : ℕ) (w : World K)
      → (w.base p).instances ≡ []
      → (wait_for wait_for_instance fuel p w ≡ done tt w) × (is_running (w.base p) ≡ false)
  unfolding wait_for is_running
  idle zero p w e = (rw e, rw e)
  idle (suc fuel) p w e = (rw (wait_for, e), rw e)

  one_round :
      (fuel p : ℕ) (w v : World K) (num : ℕ) (handlers : List CompletionHandler)
      (m : Map (List CompletionHandler))
      → (w.base p).instances ≡ (num, handlers) ∷ m
      → wait_for_instance p num w ≡ done tt v
      → wait_for wait_for_instance (suc fuel) p w ≡ wait_for wait_for_instance fuel p v
  unfolding wait_for
  one_round fuel p w v num handlers m e waited = rw (wait_for, e, ◌>>=◌, waited)

  first_runs :
      (p : ℕ) (w : World K) (num : ℕ) (handlers : List CompletionHandler)
      (m : Map (List CompletionHandler))
      → (w.base p).instances ≡ (num, handlers) ∷ m
      → instance_is_running num (w.base p) ≡ true
  unfolding instance_is_running lookup
  first_runs p w num handlers m e = ground (arith, e)

  -- `waitFor` returns after at most as many rounds as instances are running, and then none is, if
  -- each call of waitForInstance for a running instance returns and leaves fewer of them.
  pub wait_for_lem :
      (fuel p : ℕ) (w : World K)
      → EndsInstance p
      → length (w.base p).instances ≤ fuel
      → (v : World K) × (wait_for wait_for_instance fuel p w ≡ done tt v)
        × (is_running (v.base p) ≡ false)
  wait_for_lem fuel p w ends le = go fuel w (w.base p).instances refl le
    where
      go :
          (fuel : ℕ) (w : World K) (m : Map (List CompletionHandler))
          → (w.base p).instances ≡ m
          → length m ≤ fuel
          → (v : World K) × (wait_for wait_for_instance fuel p w ≡ done tt v)
            × (is_running (v.base p) ≡ false)
      go fuel w [] e le = let (waited, idles) = idle fuel p w e in (w, waited, idles)
      go zero w ((num, handlers) ∷ m) e le = absurd (omega arith)
      go (suc fuel) w ((num, handlers) ∷ m) e le =
          let (v, waited, fewer) = ends num w (first_runs p w num handlers m e) in
          let fits : length (v.base p).instances ≤ fuel =
            omega (arith, fewer, ap (λ l. length l) e) in
          let (u, returns, none_runs) = go fuel v (v.base p).instances refl fits in
          (u, one_round fuel p w v num handlers m e waited ∙ returns, none_runs)
