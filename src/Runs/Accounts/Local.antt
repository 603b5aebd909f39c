-- ===== src/Runs/Accounts/Local.antt =====
-- What the methods of class Node on descriptors open: one descriptor at most, which the node holds.
use arclaunch.Prelude.{
  ℕ, ◌≢◌, ◌<◌, refl, sym, ◌∙◌, subst, none, [], ◌∷◌, ◌⊎◌, inl, inr, Outcome, done, thrown, exited,
  undefined, no_fuel, arith, ◌==◌, Bool-cases,
}
use arclaunch.Prelude.Map.{Map, insert, lookup-insert}
use arclaunch.Os.{Os, Posix}
use arclaunch.Node.{Node}
use arclaunch.Node.Fds.{Local, link_fd, pass_fds, pass_fd}
use arclaunch.Node.Fds.Link.{link_fd-LinksFd, LinksFd}
use arclaunch.Runs.{After}
use arclaunch.Runs.Fds.{OnlyFds, link_fd-After, OnlyFds-run}
use arclaunch.Runs.Accounts.{Has, Post, Post-bind}

module _ {K : Type 0} {os : Os K} (px : Posix os) where
  pub record Adds (s t : Local K) : Type 0 where
    pub only : OnlyFds s t
    pub kept : (c : ℕ) → Has c s.node.fd_map → Has c t.node.fd_map
    pub opened :
        (c : ℕ) → px.file t.kernel c ≢ none → Has c t.node.fd_map ⊎ (px.file s.kernel c ≢ none)

  Adds-same : (s : Local K) → Adds s s
  Adds-same s = record { only = OnlyFds-run.same s; kept = λ c h. h; opened = λ c h. inr h }

  Adds-then : (s t u : Local K) → Adds s t → Adds t u → Adds s u
  Adds-then s t u f g = record {
    only = OnlyFds-run.then_run s t u f.only g.only;
    kept = λ c h. g.kept c (f.kept c h);
    opened = λ c h. elim (g.opened c h) [
      | inl has ↦ inl has
      | inr was ↦ elim (f.opened c was) [ inl has ↦ inl (g.kept c has) | inr old ↦ inr old ]
    ];
  }

  then_post :
      (s t : Local K)
      → Adds s t
      → (o : Outcome (Local K) (Unit {0})) → Post (Adds t) o
      → Post (Adds s) o
  then_post s t f (done a u) h = Adds-then s t u f h
  then_post s t f (thrown e u) h = tt
  then_post s t f (exited c u) h = tt
  then_post s t f undefined h = tt
  then_post s t f no_fuel h = tt

  insert_kept : (n fd c : ℕ) (m : Map ℕ) → Has c m → Has c (insert n fd m)
  insert_kept n fd c m (x, e) = elim (Bool-cases (n == c)) [
    | inl is ↦ (fd, lookup-insert n fd m c ∙ rw is refl)
    | inr other ↦ (x, lookup-insert n fd m c ∙ rw other e)
  ]

  linked :
      (s : Local K) (fd ext : ℕ) (o : Outcome (Local K) (Unit {0}))
      → LinksFd px s fd ext o
      → After OnlyFds OnlyFds s o
      → Post (Adds s) o
  linked s fd ext (done u t) (n, lt, shut, dups, e) only = record {
    only = only;
    kept = λ c h. subst (λ (m : Node). Has c m.fd_map) (sym e) (insert_kept n fd c s.node.fd_map h);
    opened = λ c h. elim (Bool-cases (n == c)) [
      | inl is ↦ inl (
          subst (λ (m : Node). Has c m.fd_map) (sym e)
            (fd, lookup-insert n fd s.node.fd_map c ∙ rw is refl))
      | inr other ↦ inr (λ z. h (dups.others c (λ same. ground arith) ∙ z))
    ];
  }
  linked s fd ext (thrown e t) h only = tt
  linked s fd ext (exited c t) h only = tt
  linked s fd ext undefined h only = tt
  linked s fd ext no_fuel h only = tt

  module _ (rounds : ℕ) (enough : px.limit < rounds) where
    pub link_fd-Adds : (fd ext : ℕ) (s : Local K) → Post (Adds s) (link_fd os rounds fd ext s)
    link_fd-Adds fd ext s =
        linked s fd ext (link_fd os rounds fd ext s) (link_fd-LinksFd px rounds fd ext s enough)
          (link_fd-After os rounds fd ext s)

    pub pass_fds-Adds : (m : Map ℕ) (s : Local K) → Post (Adds s) (pass_fds os rounds m s)
    unfolding pass_fds
    pass_fds-Adds [] s = Adds-same s
    pass_fds-Adds ((n, fd) ∷ m) s =
        Post-bind (Adds s) (Adds s) (link_fd os rounds fd n) (λ u. pass_fds os rounds m) s
          (link_fd-Adds fd n s) λ a t h. then_post s t h _ (pass_fds-Adds m t)

    pub pass_fd-Adds :
        (m : Map ℕ) (fd child_fd : ℕ) (s : Local K)
        → Post (Adds s) (pass_fd os rounds m fd child_fd s)
    unfolding pass_fd
    pass_fd-Adds [] fd child_fd s = Adds-same s
    pass_fd-Adds ((n, fd') ∷ m) fd child_fd s = elim (Bool-cases (fd' == fd)) [
      | inl is ↦ rw is (link_fd-Adds child_fd n s)
      | inr other ↦ rw other (pass_fd-Adds m fd child_fd s)
    ]
