-- ===== src/Socket/Accept.antt =====
-- Which connections a socket node accepts: the loop of acceptConnections over its sockets.
use arclaunch.Prelude.{
  ℕ, zero, suc, ◌-◌, ◌≡◌, refl, ap, sym, ◌∙◌, Bool, true, false, Option, none, some, List, [], ◌∷◌,
  Exec, done, ◌>>◌, pure, length, arith, ◌==◌, if◌then◌else◌, map, Bool-cases, inl, inr,
}
use arclaunch.Os.{Os}
use arclaunch.World.{World}
use arclaunch.Os.{Net}
use arclaunch.Socket.{accept_one, accept_fds}

-- The sockets of a set, in their order.
abbrev pub in_ready : (ℕ → Bool) → List ℕ → List ℕ
in_ready ready [] = []
in_ready ready (fd ∷ fds) =
    let others = in_ready ready fds in if ready fd then fd ∷ others else others

module _ {K : Type 0} (os : Os K) (net : Net K) (rounds : ℕ) (startup : ℕ → Exec (World K) ℕ) where
  -- One connection of each socket of a list.
  pub accept_all : ℕ → List ℕ → Exec (World K) (Unit {0})
  accept_all p [] = pure tt
  accept_all p (fd ∷ fds) = do accept_one os net rounds startup p fd; accept_all p fds

  step_ready :
      (p : ℕ) (ready : ℕ → Bool) (n fd : ℕ) (fds : List (Option ℕ)) (w : World K)
      → ready fd ≡ true
      → accept_fds os net rounds startup p ready (some (suc n)) (some fd ∷ fds) w
        ≡ (accept_one os net rounds startup p fd
              >> accept_fds os net rounds startup p ready (some n) fds)
            w
  unfolding accept_fds
  step_ready p ready n fd fds w e =
      let left : (suc n == 0) ≡ false = ground arith in
      let fewer : suc n - 1 ≡ n = omega arith in rw (e, left, fewer)

  stopped :
      (p : ℕ) (ready : ℕ → Bool) (fds : List (Option ℕ)) (w : World K)
      → accept_fds os net rounds startup p ready (some 0) fds w ≡ done tt w
  unfolding accept_fds
  stopped p ready [] w = refl
  stopped p ready (none ∷ fds) w = refl
  stopped p ready (some fd ∷ fds) w = refl

  step_other :
      (p : ℕ) (ready : ℕ → Bool) (n fd : ℕ) (fds : List (Option ℕ)) (w : World K)
      → ready fd ≡ false
      → accept_fds os net rounds startup p ready (some n) (some fd ∷ fds) w
        ≡ accept_fds os net rounds startup p ready (some n) fds w
  unfolding accept_fds
  step_other p ready zero fd fds w e = sym (stopped p ready fds w)
  step_other p ready (suc n) fd fds w e =
      let left : (suc n == 0) ≡ false = ground arith in rw (e, left)

  -- Where `select` has answered how many sockets are ready and which, one connection is accepted of
  -- each of these, in the order of the sockets, and of no other.
  pub accept_fds-accept_all :
      (p : ℕ) (ready : ℕ → Bool) (fds : List ℕ) (w : World K)
      → accept_fds os net rounds startup p ready
          (some (length (in_ready ready fds)))
          (map (λ fd. some fd) fds)
          w
        ≡ accept_all p (in_ready ready fds) w
  unfolding accept_all
  accept_fds-accept_all p ready [] w = stopped p ready [] w
  accept_fds-accept_all p ready (fd ∷ fds) w = elim (Bool-cases (ready fd)) [
    | inl is_ready ↦ rw is_ready (
        step_ready p ready (length (in_ready ready fds)) fd (map (λ x. some x) fds) w is_ready
        ∙ ap (λ m. (accept_one os net rounds startup p fd >> m) w)
            (λ i u. accept_fds-accept_all p ready fds u i))
    | inr not_ready ↦ rw not_ready (
        step_other p ready (length (in_ready ready fds)) fd (map (λ x. some x) fds) w not_ready
        ∙ accept_fds-accept_all p ready fds w)
  ]
