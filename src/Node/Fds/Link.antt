-- ===== src/Node/Fds/Link.antt =====
-- What `linkFd` does.
use arclaunch.Prelude.{
  ℕ, zero, suc, ◌+◌, ◌≤◌, ◌<◌, ◌≡◌, refl, ◌≢◌, true, false, Option, none, some, Outcome, done,
  thrown, exited, no_fuel, undefined, Bool-cases, Option-cases, ap, arith, inl, inr, sym, ◌∙◌,
  plain,
}
use arclaunch.Os.{Os, Posix, Reply, success, busy, failed, Dups, Same, Answers, InLimit}
use arclaunch.Prelude.Map.{Map, IsMap, lookup, insert, lookup-insert, insert-From}
use arclaunch.Node.Fds.{Local, link_loop, link_fd}

module _ {K : Type 0} {os : Os K} (px : Posix os) where
  abbrev file : K → ℕ → Option ℕ
  file = px.file

  -- The loop of `linkFd` ends: with a descriptor from `n` on that was closed and now shares the
  -- file of `ext`, or with an exception and every descriptor as it was.
  abbrev pub Linked : K → ℕ → ℕ → Outcome K ℕ → Type 0
  Linked k n ext (done m k') = (n ≤ m) × (file k m ≡ none) × Dups file k ext m k'
  Linked k n ext (thrown e k') = Same file k k'
  Linked k n ext (exited c k') = ⊥
  Linked k n ext undefined = ⊥
  Linked k n ext no_fuel = ⊥

  Linked-le :
      (k k' : K) (n ext : ℕ) (o : Outcome K ℕ)
      → Same file k k'
      → Linked k' (n + 1) ext o
      → Linked k n ext o
  Linked-le k k' n ext (done m l) s (le, shut, d) = (
    omega arith,
    sym (s m) ∙ shut,
    record {
      source = λ e. d.source (s ext ∙ e);
      target = d.target ∙ s ext;
      others = λ c ne. d.others c ne ∙ s c;
    },
  )
  Linked-le k k' n ext (thrown e l) s h = λ c. h c ∙ s c
  Linked-le k k' n ext (exited c l) s h = h
  Linked-le k k' n ext undefined s h = h
  Linked-le k k' n ext no_fuel s h = h

  closed_of_test : (k : K) (c : ℕ) → os.is_open k c ≡ false → file k c ≡ none
  closed_of_test k c e = elim (Option-cases (file k c)) [
    | inl n ↦ n
    | inr (f, s) ↦ cc (px.open_lem k c, s, e)
  ]

  below_limit : (k : K) (c : ℕ) → os.is_open k c ≡ true → c < px.limit
  below_limit k c e = px.open-limit k c λ n. cc (px.open_lem k c, n, e)

  -- Enough rounds for every descriptor below the limit.
  pub link_loop-Linked :
      (fuel n ext : ℕ) (k : K)
      → 0 < fuel
      → px.limit < fuel + n
      → Linked k n ext (link_loop os fuel n ext k)
  unfolding link_loop
  link_loop-Linked zero n ext k pos h = absurd (omega arith)
  link_loop-Linked (suc fuel) n ext k pos h = elim (Bool-cases (os.is_open k n)) [
    | inl e ↦
        let lt = below_limit k n e in
        rw (e, Linked, link_loop)
          (Linked-le k k n ext _ (λ c. refl)
            (link_loop-Linked fuel (n + 1) ext k (omega arith) (omega arith)))
    | inr e ↦
        rw (e, Linked, link_loop)
          (answer (os.dup3 k ext n) (closed_of_test k n e) (px.dup3_lem k ext n)
            (px.dup3-limit k ext n)
            (λ k' lt. link_loop-Linked fuel (n + 1) ext k' (omega arith) (omega arith)))
  ]
    where
      answer :
          (r : Reply K)
          → file k n ≡ none
          → Answers file k ext n r
          → InLimit px.limit n r
          → ((k' : K) → n < px.limit → Linked k' (n + 1) ext (link_loop os fuel (n + 1) ext k'))
          → Linked k n ext (elim r [
            | success k' ↦ done n k'
            | busy k' ↦ link_loop os fuel (n + 1) ext k'
            | failed k' ↦ thrown plain k'
          ])
      answer (success k') shut d lt rest = (omega arith, shut, d)
      answer (busy k') shut s lt rest = Linked-le k k' n ext _ s (rest k' lt)
      answer (failed k') shut s lt rest = s

  -- Every descriptor that was open still has its file.
  abbrev pub Extends : K → K → Type 0
  Extends k k' = (c : ℕ) → file k c ≢ none → file k' c ≡ file k c

  pub Dups-Extends : {k k' : K} {a b : ℕ} → file k b ≡ none → Dups file k a b k' → Extends k k'
  Dups-Extends {k} shut d c open_c = d.others c λ e. open_c (ap (file k) e ∙ shut)

  pub Same-Extends : {k k' : K} → Same file k k' → Extends k k'
  Same-Extends s c open_c = s c

  pub Extends-trans : {k l m : K} → Extends k l → Extends l m → Extends k m
  Extends-trans h g c o = g c (λ e. o (sym (h c o) ∙ e)) ∙ h c o

  -- The descriptors of a node: they are open, and each is above its number in the instance.
  pub record Holds (m : Map ℕ) (k : K) : Type 0 where
    pub is_map : IsMap m
    pub entry : (n fd : ℕ) → lookup n m ≡ some fd → (fd < n) × (file k n ≢ none)

  pub Holds-Extends : {m : Map ℕ} {k k' : K} → Extends k k' → Holds m k → Holds m k'
  Holds-Extends x h = record {
    is_map = h.is_map;
    entry = λ n fd e. let (lt, o) = h.entry n fd e in (lt, λ z. o (sym (x n o) ∙ z));
  }

  -- The node `s.node` after a call of `linkFd`: with one more descriptor, or as it was.
  abbrev pub LinksFd : Local K → ℕ → ℕ → Outcome (Local K) (Unit {0}) → Type 0
  LinksFd s fd ext (done u t) =
      (n_fd : ℕ) × (fd < n_fd)
      × (file s.kernel n_fd ≡ none)
      × Dups file s.kernel ext n_fd t.kernel
      × (t.node ≡ record s.node { fd_map = insert n_fd fd s.node.fd_map })
  LinksFd s fd ext (thrown e t) = (t.node ≡ s.node) × Same file s.kernel t.kernel
  LinksFd s fd ext (exited c t) = ⊥
  LinksFd s fd ext undefined = ⊥
  LinksFd s fd ext no_fuel = ⊥

  -- `linkFd` returns after at most as many rounds as there are descriptors. Either it throws and has
  -- changed nothing, or a descriptor above `fd` that was closed now shares the open file of `ext`, is
  -- recorded for `fd`, and every other descriptor is as it was.
  pub link_fd-LinksFd :
      (fuel fd ext : ℕ) (s : Local K)
      → px.limit < fuel
      → LinksFd s fd ext (link_fd os fuel fd ext s)
  unfolding link_fd
  link_fd-LinksFd fuel fd ext s h =
      go (link_loop os fuel (fd + 1) ext s.kernel)
        (link_loop-Linked fuel (fd + 1) ext s.kernel (omega arith) (omega arith))
    where
      go :
          (o : Outcome K ℕ)
          → Linked s.kernel (fd + 1) ext o
          → LinksFd s fd ext (elim o [
            | done n_fd k ↦ done tt (record {
              node = record s.node { fd_map = insert n_fd fd s.node.fd_map };
              kernel = k;
            })
            | thrown e k ↦ thrown e (record s { kernel = k })
            | exited c k ↦ exited c (record s { kernel = k })
            | undefined ↦ undefined
            | no_fuel ↦ no_fuel
          ])
      go (done n_fd k) (le, shut, d) = (n_fd, omega arith, shut, d, refl)
      go (thrown e k) same = (refl, same)
      go (exited c k) b = b
      go undefined b = b
      go no_fuel b = b

  pub insert-Holds :
      {m : Map ℕ} {k k' : K} (n fd ext : ℕ)
      → fd < n
      → file k n ≡ none
      → Dups file k ext n k'
      → Holds m k
      → Holds (insert n fd m) k'
  insert-Holds {m} {k} {k'} n fd ext lt shut d h = record {
    is_map = insert-From n 0 fd m (omega arith) h.is_map;
    entry = λ c x e. ground (arith, lookup-insert n fd m c, h.entry c x, d.others c);
  }
