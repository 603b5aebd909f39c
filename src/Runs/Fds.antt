-- ===== src/Runs/Fds.antt =====
-- What the methods of class Node on descriptors leave alone.
use arclaunch.Prelude.{
  ℕ, ◌≡◌, refl, ap, ◌+◌, ◌∙◌, [], ◌∷◌, Outcome, done, thrown, exited, no_fuel, undefined, arith,
  ◌==◌,
}
use arclaunch.Prelude.Map.{Map, IsMap, insert, insert-From}
use arclaunch.Os.{Os}
use arclaunch.Node.{Node}
use arclaunch.Node.Fds.{Local, link_loop, link_fd, pass_fd, pass_fds, close_fds}
use arclaunch.Runs.{After, IsRun, After-bind, After-choice}

-- A method of Node changes the descriptors that the node holds, and nothing else of the node.
pub record OnlyFds {K : Type 0} (s t : Local K) : Type 0 where
  pub is_map : IsMap s.node.fd_map → IsMap t.node.fd_map
  pub rest : t.node ≡ record s.node { fd_map = t.node.fd_map }

module _ {K : Type 0} where
  OnlyFds-then : (s t u : Local K) → OnlyFds s t → OnlyFds t u → OnlyFds s u
  OnlyFds-then s t u f g = record {
    is_map = λ h. g.is_map (f.is_map h);
    rest = g.rest ∙ ap {A = Node} (λ n. record n { fd_map = u.node.fd_map }) f.rest;
  }

  pub OnlyFds-run : IsRun {S = Local K} OnlyFds OnlyFds
  OnlyFds-run = record {
    same = λ s. record { is_map = λ h. h; rest = refl };
    then_run = OnlyFds-then;
    then_throw = OnlyFds-then;
    gives_up = λ s t f. f;
  }

module _ {K : Type 0} (os : Os K) (rounds : ℕ) where
  pub link_fd-After :
      (fd ext_fd : ℕ) (s : Local K) → After OnlyFds OnlyFds s (link_fd os rounds fd ext_fd s)
  unfolding link_fd
  link_fd-After fd ext_fd s = linked (link_loop os rounds (fd + 1) ext_fd s.kernel)
    where
      linked :
          (o : Outcome K ℕ)
          → After OnlyFds OnlyFds s (elim o as (λ o. Outcome (Local K) (Unit {0})) [
            | done n_fd k ↦ done tt (record {
              node = record s.node { fd_map = insert n_fd fd s.node.fd_map };
              kernel = k;
            })
            | thrown e k ↦ thrown e (record s { kernel = k })
            | exited c k ↦ exited c (record s { kernel = k })
            | undefined ↦ undefined
            | no_fuel ↦ no_fuel
          ])
      linked (done n_fd k) = record {
        is_map = λ h. insert-From n_fd 0 fd s.node.fd_map (omega arith) h;
        rest = refl;
      }
      linked (thrown e k) = record { is_map = λ h. h; rest = refl }
      linked (exited c k) = record { is_map = λ h. h; rest = refl }
      linked undefined = tt
      linked no_fuel = tt

  pub pass_fds-After : (m : Map ℕ) (s : Local K) → After OnlyFds OnlyFds s (pass_fds os rounds m s)
  unfolding pass_fds
  pass_fds-After [] s = OnlyFds-run.same s
  pass_fds-After ((n_fd, fd) ∷ m) s =
      After-bind OnlyFds OnlyFds OnlyFds-run (link_fd os rounds fd n_fd) _ s
        (link_fd-After fd n_fd s) (λ a t e. pass_fds-After m t)

  pub pass_fd-After :
      (m : Map ℕ) (fd child_fd : ℕ) (s : Local K)
      → After OnlyFds OnlyFds s (pass_fd os rounds m fd child_fd s)
  unfolding pass_fd
  pass_fd-After [] fd child_fd s = OnlyFds-run.same s
  pass_fd-After ((n_fd, fd') ∷ m) fd child_fd s =
      After-choice OnlyFds OnlyFds OnlyFds-run (fd' == fd) (link_fd os rounds child_fd n_fd) _ s
        (link_fd-After child_fd n_fd s) (pass_fd-After m fd child_fd s)

  pub close_fds-OnlyFds : (s : Local K) → OnlyFds s (close_fds os s)
  unfolding close_fds
  close_fds-OnlyFds s = record { is_map = λ h. tt; rest = refl }
