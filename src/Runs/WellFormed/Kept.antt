-- ===== src/Runs/WellFormed/Kept.antt =====
-- Each assignment of the library keeps the state well-formed.
use arclaunch.Prelude.{
  ℕ, ◌≡◌, refl, sym, ◌∙◌, subst, Bool, true, Option, none, some, List, ◌++◌, [], ◌∷◌, arith, ◌==◌,
  ◌⊎◌, inl, inr, Bool-cases,
}
use arclaunch.Prelude.Map.{
  Map, IsMap, lookup, insert, erase, lookup-insert, lookup-erase, insert-From, erase-From,
}
use arclaunch.Node.{Node}
use arclaunch.Node.Instances.{begin_instance, add_instance_completion_handler}
use arclaunch.World.{
  World, Call, Process, LaunchNode, SequenceNode, Derived, executable, launch, sequence_node,
  process_of, launch_of, sequence_of, at, set_base, set_derived,
}
use arclaunch.Runs.Closed.{IsLaunch}
use arclaunch.Runs.Plain.{IsSequence, Plain}
use arclaunch.Runs.WellFormed.{IsWellFormed, Registered}

launch_only : (d : Option Derived) (l : LaunchNode) → launch_of d ≡ some l → process_of d ≡ none
launch_only none l e = cc
launch_only (some (executable x)) l e = cc
launch_only (some (launch x)) l e = refl
launch_only (some (sequence_node x)) l e = cc

sequence_only :
    (d : Option Derived) (s : SequenceNode) → sequence_of d ≡ some s → process_of d ≡ none
sequence_only none s e = cc
sequence_only (some (executable x)) s e = cc
sequence_only (some (launch x)) s e = cc
sequence_only (some (sequence_node x)) s e = refl

pub at_elim :
    {A : Type 0} (P : A → Type 0) (f : ℕ → A) (p q : ℕ) (a : A) → P a → P (f q) → P (at f p a q)
at_elim P f p q a h k = elim (Bool-cases (p == q)) [ inl e ↦ rw e h | inr e ↦ rw e k ]

new_process :
    (pid p c n : ℕ) (m : Map ℕ)
    → lookup c (insert pid p m) ≡ some n
    → ((c ≡ pid) × (n ≡ p)) ⊎ (lookup c m ≡ some n)
new_process pid p c n m e = elim (Bool-cases (pid == c)) [
  | inl new ↦ inl (ground arith, ground (arith, lookup-insert pid p m c))
  | inr old ↦ inr (ground (arith, lookup-insert pid p m c))
]

module _ {K : Type 0} where
  -- What a node that is no program turns into does not matter to a process.
  pub kept-Registered :
      (w : World K) (p : ℕ) (d : Derived) (pid n : ℕ)
      → process_of (w.derived p) ≡ none
      → Registered w pid n
      → Registered (set_derived p d w) pid n
  kept-Registered w p d pid n other (x, inst, e, f) = (x, inst, ground arith, f)

  pub set_base-IsWellFormed :
      (w : World K) (p : ℕ) (m : Node)
      → (IsMap (w.base p).instances → IsMap m.instances)
      → (IsMap (w.base p).fd_map → IsMap m.fd_map)
      → IsWellFormed w
      → IsWellFormed (set_base p m w)
  set_base-IsWellFormed w p m f g h = record {
    instances = λ q. ground (arith, h.instances p, h.instances q, f (h.instances p));
    fd_maps = λ q. ground (arith, h.fd_maps p, h.fd_maps q, g (h.fd_maps p));
    running_nodes = h.running_nodes;
    processes = h.processes;
    launches = h.launches;
    sequences = h.sequences;
    registered = h.registered;
  }

  launch-IsWellFormed :
      (w : World K) (p : ℕ) (l l' : LaunchNode)
      → launch_of (w.derived p) ≡ some l
      → (IsLaunch l → IsLaunch l')
      → IsWellFormed w
      → IsWellFormed (set_derived p (launch l') w)
  launch-IsWellFormed w p l l' e f h = record {
    instances = h.instances;
    fd_maps = h.fd_maps;
    running_nodes = h.running_nodes;
    processes = λ q x.
        at_elim (λ d. process_of d ≡ some x → IsMap x.pid_instance) w.derived p q (some (launch l'))
          (λ e'. absurd (cc)) (h.processes q x);
    launches = λ q m.
        at_elim (λ d. launch_of d ≡ some m → IsLaunch m) w.derived p q (some (launch l'))
          (λ e'. let same : l' ≡ m = cc in subst IsLaunch same (f (h.launches p l e)))
          (h.launches q m);
    sequences = λ q s.
        at_elim (λ d. sequence_of d ≡ some s → IsSequence s) w.derived p q (some (launch l'))
          (λ e'. absurd (cc)) (h.sequences q s);
    registered = λ pid n e'.
        kept-Registered w p (launch l') pid n (launch_only (w.derived p) l e)
          (h.registered pid n e');
  }

  sequence-IsWellFormed :
      (w : World K) (p : ℕ) (s s' : SequenceNode)
      → sequence_of (w.derived p) ≡ some s
      → (IsSequence s → IsSequence s')
      → IsWellFormed w
      → IsWellFormed (set_derived p (sequence_node s') w)
  sequence-IsWellFormed w p s s' e f h = record {
    instances = h.instances;
    fd_maps = h.fd_maps;
    running_nodes = h.running_nodes;
    processes = λ q x.
        at_elim (λ d. process_of d ≡ some x → IsMap x.pid_instance) w.derived p q
          (some (sequence_node s')) (λ e'. absurd (cc)) (h.processes q x);
    launches = λ q m.
        at_elim (λ d. launch_of d ≡ some m → IsLaunch m) w.derived p q (some (sequence_node s'))
          (λ e'. absurd (cc)) (h.launches q m);
    sequences = λ q t.
        at_elim (λ d. sequence_of d ≡ some t → IsSequence t) w.derived p q (some (sequence_node s'))
          (λ e'. let same : s' ≡ t = cc in subst IsSequence same (f (h.sequences p s e)))
          (h.sequences q t);
    registered = λ pid n e'.
        kept-Registered w p (sequence_node s') pid n (sequence_only (w.derived p) s e)
          (h.registered pid n e');
  }

  -- A process that was known to its node is so when the node `p` comes to know `pid`.
  registers_old :
      (w : World K) (p pid inst : ℕ) (x : Process) (c n : ℕ)
      → process_of (w.derived p) ≡ some x
      → Registered w c n
      → Registered
          (set_derived p
            (executable (record x { pid_instance = insert pid inst x.pid_instance }))
            w)
          c
          n
  registers_old w p pid inst x c n e (z, i, found, here) = elim (Bool-cases (p == n)) [
    | inr other ↦ (z, i, rw other found, here)
    | inl same ↦
        let y : Process = record x { pid_instance = insert pid inst x.pid_instance } in
        let x_is_z : x ≡ z = ground (arith, found, e) in
        let known : lookup c x.pid_instance ≡ some i =
          subst (λ z. lookup c z.pid_instance ≡ some i) (sym x_is_z) here in
        let there : process_of (at w.derived p (some (executable y)) n) ≡ some y = rw same refl in
        elim (Bool-cases (pid == c)) [
          | inl new ↦ (y, inst, there, lookup-insert pid inst x.pid_instance c ∙ rw new refl)
          | inr old ↦ (y, i, there, lookup-insert pid inst x.pid_instance c ∙ rw old known)
        ]
  ]

  registers_known :
      (w : World K) (p pid inst : ℕ) (x : Process) (c n : ℕ)
      → process_of (w.derived p) ≡ some x
      → ((c ≡ pid) × (n ≡ p)) ⊎ (lookup c w.running_nodes ≡ some n)
      → ((pid n : ℕ) → lookup pid w.running_nodes ≡ some n → Registered w pid n)
      → Registered
          (set_derived p
            (executable (record x { pid_instance = insert pid inst x.pid_instance }))
            w)
          c
          n
  registers_known w p pid inst x c n e (inl (is_pid, is_p)) h = (
    record x { pid_instance = insert pid inst x.pid_instance },
    inst,
    ground arith,
    ground (arith, lookup-insert pid inst x.pid_instance c),
  )
  registers_known w p pid inst x c n e (inr old) h = registers_old w p pid inst x c n e (h c n old)

  -- A program node `p` that knows `pid` after the change, and knew all other processes before.
  process-IsWellFormed :
      (w : World K) (p pid inst : ℕ) (x : Process) (running : Map ℕ)
      → process_of (w.derived p) ≡ some x
      → IsMap running
      → ((c n : ℕ)
          → lookup c running ≡ some n
          → ((c ≡ pid) × (n ≡ p)) ⊎ (lookup c w.running_nodes ≡ some n))
      → IsWellFormed w
      → IsWellFormed (
          set_derived p
            (executable (record x { pid_instance = insert pid inst x.pid_instance }))
            (record w { running_nodes = running }))
  process-IsWellFormed w p pid inst x running e m old h =
      let y : Process = record x { pid_instance = insert pid inst x.pid_instance } in
      record {
        instances = h.instances;
        fd_maps = h.fd_maps;
        running_nodes = m;
        processes = λ q z.
            at_elim (λ d. process_of d ≡ some z → IsMap z.pid_instance) w.derived p q
              (some (executable y))
              (λ e'.
                let same : y ≡ z = cc in
                subst (λ z. IsMap z.pid_instance) same
                  (insert-From pid 0 inst x.pid_instance (omega arith) (h.processes p x e)))
              (h.processes q z);
        launches = λ q l.
            at_elim (λ d. launch_of d ≡ some l → IsLaunch l) w.derived p q (some (executable y))
              (λ e'. absurd (cc)) (h.launches q l);
        sequences = λ q s.
            at_elim (λ d. sequence_of d ≡ some s → IsSequence s) w.derived p q (some (executable y))
              (λ e'. absurd (cc)) (h.sequences q s);
        registered = λ c n e'. registers_known w p pid inst x c n e (old c n e') h.registered;
      }

  -- The fields that the property does not read.
  rest-IsWellFormed :
      (w : World K) (k : K) (b : Bool) (cs : List Call)
      → IsWellFormed w
      → IsWellFormed (record w { kernel = k; reaping = b; calls = cs })
  rest-IsWellFormed w k b cs h = record {
    instances = h.instances;
    fd_maps = h.fd_maps;
    running_nodes = h.running_nodes;
    processes = h.processes;
    launches = h.launches;
    sequences = h.sequences;
    registered = h.registered;
  }

  pub WellFormed-Plain : Plain {K = K} (λ w v. IsWellFormed w → IsWellFormed v)
  unfolding begin_instance add_instance_completion_handler
  WellFormed-Plain = record {
    same = λ w h. h;
    then_run = λ w v u f g h. g (f h);
    kernel = λ k w h. rest-IsWellFormed w k w.reaping w.calls h;
    fds = λ p m w f h. set_base-IsWellFormed w p _ (λ g. g) f h;
    begins = λ p inst w h.
        set_base-IsWellFormed w p (begin_instance inst (w.base p))
          (λ g. insert-From inst 0 _ _ (omega arith) g) (λ g. g) h;
    ends = λ p inst w h. set_base-IsWellFormed w p _ (λ g. erase-From inst 0 _ g) (λ g. g) h;
    awaits = λ p x w h.
        set_base-IsWellFormed w p (add_instance_completion_handler x (w.base p)) (λ g. g) (λ g. g)
          h;
    calls = λ c w h. rest-IsWellFormed w w.kernel w.reaping (w.calls ++ c ∷ []) h;
    reaping = λ w h. rest-IsWellFormed w w.kernel true w.calls h;
    registers = λ p pid inst x w e h.
        process-IsWellFormed w p pid inst x (insert pid p w.running_nodes) e
          (insert-From pid 0 p w.running_nodes (omega arith) h.running_nodes)
          (λ c n f. new_process pid p c n w.running_nodes f) h;
    reaps = λ p pid x w e h.
        process-IsWellFormed w p pid _ x (erase pid w.running_nodes) e
          (erase-From pid 0 w.running_nodes h.running_nodes)
          (λ c n f. inr (ground (arith, lookup-erase pid c 0 w.running_nodes))) h;
    launches = λ p l m w e f h. launch-IsWellFormed w p l _ e f h;
    sequences = λ p s m w e f h. sequence-IsWellFormed w p s _ e f h;
    sockets = λ p t w h. record {
      instances = h.instances;
      fd_maps = h.fd_maps;
      running_nodes = h.running_nodes;
      processes = h.processes;
      launches = h.launches;
      sequences = h.sequences;
      registered = h.registered;
    };
  }
