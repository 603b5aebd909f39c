-- ===== src/Node/Fds/Pass.antt =====
-- What `passFds` and `passFd` hand to a child.
use arclaunch.Prelude.{
  ℕ, suc, ◌<◌, ◌≡◌, refl, ◌≢◌, none, some, [], ◌∷◌, Outcome, done, thrown, exited, undefined,
  no_fuel, arith, ◌∙◌,
}
use arclaunch.Prelude.Map.{Map, From, lookup, lookup-insert, lookup-below, Each, Each-of}
use arclaunch.Os.{Os, Posix}
use arclaunch.Node.Fds.{Local, link_fd, pass_fds, pass_fd}
use arclaunch.Node.Fds.Link.{
  Holds, Extends, Extends-trans, Dups-Extends, Same-Extends, LinksFd, link_fd-LinksFd, insert-Holds,
  Holds-Extends,
}

module _ {K : Type 0} {os : Os K} (px : Posix os) where
  -- What one node's descriptors may rely on while another node is linked.
  pub record Grows (s t : Local K) : Type 0 where
    pub extends : Extends px s.kernel t.kernel
    pub keeps : (n fd : ℕ) → lookup n s.node.fd_map ≡ some fd → lookup n t.node.fd_map ≡ some fd
    pub holds : Holds px t.node.fd_map t.kernel

  -- The node has a descriptor for `fd` that shares the file which `ext` had in `k`.
  abbrev pub HasFd : K → Local K → ℕ → ℕ → Type 0
  HasFd k t fd ext =
      (n : ℕ) × (lookup n t.node.fd_map ≡ some fd) × (px.file t.kernel n ≡ px.file k ext)

  abbrev pub Links : Local K → ℕ → ℕ → Outcome (Local K) (Unit {0}) → Type 0
  Links s fd ext (done u t) = Grows s t × HasFd s.kernel t fd ext
  Links s fd ext (thrown e t) = Grows s t
  Links s fd ext (exited c t) = ⊥
  Links s fd ext undefined = ⊥
  Links s fd ext no_fuel = ⊥

  LinksFd-Links :
      (s : Local K) (fd ext : ℕ) (o : Outcome (Local K) (Unit {0}))
      → Holds px s.node.fd_map s.kernel
      → LinksFd px s fd ext o
      → Links s fd ext o
  LinksFd-Links s fd ext (done u t) h (n, lt, shut, d, e) = (
    record {
      extends = Dups-Extends px shut d;
      keeps = λ c x p. ground (arith, e, lookup-insert n fd s.node.fd_map c, h.entry c x);
      holds = rw e (insert-Holds px n fd ext lt shut d h);
    },
    (n, ground (arith, e, lookup-insert n fd s.node.fd_map n), d.target),
  )
  LinksFd-Links s fd ext (thrown x t) h (e, same) = record {
    extends = Same-Extends px same;
    keeps = λ c x p. rw e p;
    holds = rw e (Holds-Extends px (Same-Extends px same) h);
  }
  LinksFd-Links s fd ext (exited c t) h b = b
  LinksFd-Links s fd ext undefined h b = b
  LinksFd-Links s fd ext no_fuel h b = b

  -- `linkFd` on a node whose descriptors are in order keeps them so. No descriptor that was open
  -- changes its file and no entry is lost, also when the call throws; when it returns, the node has
  -- a descriptor for `fd` on the file of `ext`.
  pub link_fd-Links :
      (fuel fd ext : ℕ) (s : Local K)
      → px.limit < fuel
      → Holds px s.node.fd_map s.kernel
      → Links s fd ext (link_fd os fuel fd ext s)
  link_fd-Links fuel fd ext s lt h =
      LinksFd-Links s fd ext _ h (link_fd-LinksFd px fuel fd ext s lt)

  Grows-refl : (s : Local K) → Holds px s.node.fd_map s.kernel → Grows s s
  Grows-refl s h = record { extends = λ c o. refl; keeps = λ n fd e. e; holds = h }

  Grows-trans : {s t u : Local K} → Grows s t → Grows t u → Grows s u
  Grows-trans g g' = record {
    extends = Extends-trans px g.extends g'.extends;
    keeps = λ n fd e. g'.keeps n fd (g.keeps n fd e);
    holds = g'.holds;
  }

  HasFd-Grows :
      {k : K} {t u : Local K} {fd ext : ℕ}
      → Holds px t.node.fd_map t.kernel
      → Grows t u
      → HasFd k t fd ext
      → HasFd k u fd ext
  HasFd-Grows h g (n, e, f) = (n, g.keeps n _ e, g.extends n (h.entry n _ e).1 ∙ f)

  abbrev pub Passed : K → Map ℕ → Local K → Outcome (Local K) (Unit {0}) → Type 0
  Passed k m s (done u t) = Grows s t × Each (λ n fd. HasFd k t fd n) m
  Passed k m s (thrown e t) = Grows s t
  Passed k m s (exited c t) = ⊥
  Passed k m s undefined = ⊥
  Passed k m s no_fuel = ⊥

  pass_from :
      (fuel : ℕ) (k : K) (m : Map ℕ) (s : Local K)
      → px.limit < fuel
      → Extends px k s.kernel
      → Each (λ n fd. px.file k n ≢ none) m
      → Holds px s.node.fd_map s.kernel
      → Passed k m s (pass_fds os fuel m s)
  unfolding pass_fds
  pass_from fuel k [] s lt x o h = (Grows-refl s h, tt)
  pass_from fuel k ((n, fd) ∷ m) s lt x o h =
      go (link_fd os fuel fd n s) (link_fd-Links fuel fd n s lt h)
        λ t g. pass_from fuel k m t lt (Extends-trans px x g.extends) o.1 g.holds
    where
      finish :
          (t : Local K)
          → Grows s t
          → HasFd s.kernel t fd n
          → (r : Outcome (Local K) (Unit {0})) → Passed k m t r
          → Passed k ((n, fd) ∷ m) s r
      finish t g (c, e, f) (done u v) (g', rest) = (
        Grows-trans g g',
        (
          HasFd-Grows {k = k} {t = t} {u = v} {fd = fd} {ext = n} g.holds g' (c, e, f ∙ x n o.0),
          rest,
        ),
      )
      finish t g has (thrown e v) g' = Grows-trans g g'
      finish t g has (exited c v) b = b
      finish t g has undefined b = b
      finish t g has no_fuel b = b

      go :
          (r : Outcome (Local K) (Unit {0}))
          → Links s fd n r
          → ((t : Local K) → Grows s t → Passed k m t (pass_fds os fuel m t))
          → Passed k ((n, fd) ∷ m) s (elim r [
            | done a t ↦ pass_fds os fuel m t
            | thrown e t ↦ thrown e t
            | exited c t ↦ exited c t
            | undefined ↦ undefined
            | no_fuel ↦ no_fuel
          ])
      go (done a t) (g, has) rest = finish t g has _ (rest t g)
      go (thrown e t) g rest = g
      go (exited c t) b rest = b
      go undefined b rest = b
      go no_fuel b rest = b

  -- `passFds` gives the child, for every descriptor of the parent, one of its own with the same
  -- number and the same open file. The child keeps what it had, and both nodes' descriptors stay in
  -- order, also when a `dup3` fails and the call throws.
  pub pass_fds-Passed :
      (fuel : ℕ) (m : Map ℕ) (s : Local K)
      → px.limit < fuel
      → Holds px m s.kernel
      → Holds px s.node.fd_map s.kernel
      → Passed s.kernel m s (pass_fds os fuel m s)
  pass_fds-Passed fuel m s lt parent child =
      pass_from fuel s.kernel m s lt (λ c o. refl)
        (Each-of _ m 0 parent.is_map (λ n fd e. (parent.entry n fd e).1)) child

  pass_fd-eq :
      (fuel : ℕ) (m : Map ℕ) (i fd child_fd n : ℕ) (s : Local K)
      → From i m
      → lookup n m ≡ some fd
      → ((j : ℕ) → j < n → lookup j m ≢ some fd)
      → pass_fd os fuel m fd child_fd s ≡ link_fd os fuel child_fd n s
  unfolding pass_fd lookup
  pass_fd-eq fuel [] i fd child_fd n s asc e least = cc
  pass_fd-eq fuel ((j, x) ∷ m) i fd child_fd n s asc e least = ground (
    arith,
    least j,
    lookup-below m (suc j) n,
    λ (h : lookup n m ≡ some fd). pass_fd-eq fuel m (suc j) fd child_fd n s asc.1 h earlier,
  )
    where
      earlier : (c : ℕ) → c < n → lookup c m ≢ some fd
      earlier c lt h = least c lt (ground (arith, lookup-below m (suc j) c))

  -- `passFd` links the child's number to the least of the parent's descriptors recorded for `fd`.
  pub pass_fd-Links :
      (fuel : ℕ) (m : Map ℕ) (fd child_fd n : ℕ) (s : Local K)
      → px.limit < fuel
      → Holds px m s.kernel
      → Holds px s.node.fd_map s.kernel
      → lookup n m ≡ some fd
      → ((j : ℕ) → j < n → lookup j m ≢ some fd)
      → Links s child_fd n (pass_fd os fuel m fd child_fd s)
  pass_fd-Links fuel m fd child_fd n s lt parent child e least =
      rw (pass_fd-eq fuel m 0 fd child_fd n s parent.is_map e least)
        (link_fd-Links fuel child_fd n s lt child)

  pass_fd-none-From :
      (fuel : ℕ) (m : Map ℕ) (i fd child_fd : ℕ) (s : Local K)
      → From i m
      → ((j : ℕ) → lookup j m ≢ some fd)
      → pass_fd os fuel m fd child_fd s ≡ done tt s
  unfolding pass_fd lookup
  pass_fd-none-From fuel [] i fd child_fd s asc h = refl
  pass_fd-none-From fuel ((j, x) ∷ m) i fd child_fd s asc h =
      ground (arith, h j, pass_fd-none-From fuel m (suc j) fd child_fd s asc.1 rest)
    where
      rest : (c : ℕ) → lookup c m ≢ some fd
      rest c e = h c (ground (arith, lookup-below m (suc j) c))

  -- A number of the parent for which nothing is recorded is passed over: the child and the kernel
  -- stay as they were.
  pub pass_fd-none :
      (fuel : ℕ) (m : Map ℕ) (fd child_fd : ℕ) (s : Local K)
      → Holds px m s.kernel
      → ((j : ℕ) → lookup j m ≢ some fd)
      → pass_fd os fuel m fd child_fd s ≡ done tt s
  pass_fd-none fuel m fd child_fd s parent h =
      pass_fd-none-From fuel m 0 fd child_fd s parent.is_map h
