-- ===== src/Build/Kept.antt =====
-- What a constructor leaves of the memory: the objects that are there stay as they are, and the
-- state stays well-formed.
use arclaunch.Prelude.{ℕ, suc, ◌≡◌, ◌≤◌, ◌<◌, refl, ◌∙◌, ap, subst, none, some, List, [], arith}
use arclaunch.Prelude.Map.{IsMap, lookup}
use arclaunch.Text.{Text}
use arclaunch.NameMap.{NameMap}
use arclaunch.Element.{Linkage, Externalize}
use arclaunch.Command.{ExecutableNode}
use arclaunch.Sequence.{empty_node}
use arclaunch.World.{
  Derived, launch, sequence_node, Process, LaunchNode, SequenceNode, SocketNode, process_of,
  launch_of, sequence_of, at, set_base, set_derived,
}
use arclaunch.Runs.Closed.{IsLaunch}
use arclaunch.Runs.Plain.{IsSequence}
use arclaunch.Runs.WellFormed.{IsWellFormed}
use arclaunch.Runs.WellFormed.Kept.{set_base-IsWellFormed, kept-Registered, at_elim}
use arclaunch.Memory.{Memory, idle_program, idle_launch, idle_sequence}
use arclaunch.Build.Trees.{SameBelow}

-- Nothing lives beyond the address of the next object.
pub record IsStore {K : Type 0} (m : Memory K) : Type 0 where
  pub well_formed : IsWellFormed m.world
  pub unused : (q : ℕ) → m.next ≤ q → m.world.derived q ≡ none
  pub unused_sockets : (q : ℕ) → m.next ≤ q → m.world.sockets q ≡ none

-- `n` has the objects of `m` and the same outside.
pub record Grows {K : Type 0} (m n : Memory K) : Type 0 where
  pub more : m.next ≤ n.next
  pub bases : (q : ℕ) → q < m.next → n.world.base q ≡ m.world.base q
  pub below : SameBelow m.next m.world n.world
  pub kernel : n.world.kernel ≡ m.world.kernel
  pub running_nodes : n.world.running_nodes ≡ m.world.running_nodes
  pub calls : n.world.calls ≡ m.world.calls

-- An object whose maps are ascending.
pub record IsIdle (d : Derived) : Type 0 where
  pub process : (x : Process) → process_of (some d) ≡ some x → IsMap x.pid_instance
  pub group : (l : LaunchNode) → launch_of (some d) ≡ some l → IsLaunch l
  pub sequence : (s : SequenceNode) → sequence_of (some d) ≡ some s → IsSequence s

module _ {K : Type 0} where
  pub Grows-refl : (m : Memory K) → Grows m m
  Grows-refl m = record {
    more = omega arith;
    bases = λ q lt. refl;
    below = record { derived = λ q lt. refl; sockets = λ q lt. refl };
    kernel = refl;
    running_nodes = refl;
    calls = refl;
  }

  pub Grows-trans : (m n o : Memory K) → Grows m n → Grows n o → Grows m o
  Grows-trans m n o h k =
      let more = h.more in
      record {
        more = omega (arith, h.more, k.more);
        bases = λ q lt. k.bases q (omega (arith, lt, more)) ∙ h.bases q lt;
        below = record {
          derived = λ q lt. k.below.derived q (omega (arith, lt, more)) ∙ h.below.derived q lt;
          sockets = λ q lt. k.below.sockets q (omega (arith, lt, more)) ∙ h.below.sockets q lt;
        };
        kernel = k.kernel ∙ h.kernel;
        running_nodes = k.running_nodes ∙ h.running_nodes;
        calls = k.calls ∙ h.calls;
      }

  -- The memory after `new_node`.
  abbrev pub with_new : Memory K → Memory K
  with_new m = record { world = set_base m.next empty_node m.world; next = suc m.next }

  pub with_new-Grows : (m : Memory K) → Grows m (with_new m)
  with_new-Grows m = record {
    more = omega arith;
    bases = λ q lt. ground arith;
    below = record { derived = λ q lt. refl; sockets = λ q lt. refl };
    kernel = refl;
    running_nodes = refl;
    calls = refl;
  }

  pub with_new-IsStore : (m : Memory K) → IsStore m → IsStore (with_new m)
  with_new-IsStore m h = record {
    well_formed = set_base-IsWellFormed m.world m.next empty_node (λ g. tt) (λ g. tt) h.well_formed;
    unused = λ q le. h.unused q (omega arith);
    unused_sockets = λ q le. h.unused_sockets q (omega arith);
  }

  abbrev pub with_derived : ℕ → Derived → Memory K → Memory K
  with_derived p d m = record m { world = set_derived p d m.world }

  pub with_derived-Grows :
      (m n : Memory K) (p : ℕ) (d : Derived) → m.next ≤ p → Grows m n → Grows m (with_derived p d n)
  with_derived-Grows m n p d le h = record {
    more = h.more;
    bases = h.bases;
    below = record {
      derived = λ q lt. ground (arith, h.below.derived q lt);
      sockets = h.below.sockets;
    };
    kernel = h.kernel;
    running_nodes = h.running_nodes;
    calls = h.calls;
  }

  pub with_derived-IsStore :
      (m : Memory K) (p : ℕ) (d : Derived)
      → p < m.next
      → m.world.derived p ≡ none
      → IsIdle d
      → IsStore m
      → IsStore (with_derived p d m)
  with_derived-IsStore m p d lt e i h = record {
    well_formed = record {
      instances = h.well_formed.instances;
      fd_maps = h.well_formed.fd_maps;
      running_nodes = h.well_formed.running_nodes;
      processes = λ q x.
          at_elim (λ d. process_of d ≡ some x → IsMap x.pid_instance) m.world.derived p q (some d)
            (i.process x) (h.well_formed.processes q x);
      launches = λ q l.
          at_elim (λ d. launch_of d ≡ some l → IsLaunch l) m.world.derived p q (some d) (i.group l)
            (h.well_formed.launches q l);
      sequences = λ q s.
          at_elim (λ d. sequence_of d ≡ some s → IsSequence s) m.world.derived p q (some d)
            (i.sequence s) (h.well_formed.sequences q s);
      registered = λ pid n f.
          kept-Registered m.world p d pid n (ap process_of e) (h.well_formed.registered pid n f);
    };
    unused = λ q le. ground (arith, h.unused q le);
    unused_sockets = h.unused_sockets;
  }

  abbrev pub with_socket : ℕ → SocketNode → Memory K → Memory K
  with_socket p s m = record m {
    world = record m.world { sockets = at m.world.sockets p (some s) };
  }

  pub with_socket-Grows :
      (m n : Memory K) (p : ℕ) (s : SocketNode)
      → m.next ≤ p
      → Grows m n
      → Grows m (with_socket p s n)
  with_socket-Grows m n p s le h = record {
    more = h.more;
    bases = h.bases;
    below = record {
      derived = h.below.derived;
      sockets = λ q lt. ground (arith, h.below.sockets q lt);
    };
    kernel = h.kernel;
    running_nodes = h.running_nodes;
    calls = h.calls;
  }

  pub with_socket-IsStore :
      (m : Memory K) (p : ℕ) (s : SocketNode) → p < m.next → IsStore m → IsStore (with_socket p s m)
  with_socket-IsStore m p s lt h = record {
    well_formed = record {
      instances = h.well_formed.instances;
      fd_maps = h.well_formed.fd_maps;
      running_nodes = h.well_formed.running_nodes;
      processes = h.well_formed.processes;
      launches = h.well_formed.launches;
      sequences = h.well_formed.sequences;
      registered = h.well_formed.registered;
    };
    unused = h.unused;
    unused_sockets = λ q le. ground (arith, h.unused_sockets q le);
  }

pub idle_program-IsIdle : (c : ExecutableNode) → IsIdle (idle_program c)
idle_program-IsIdle c = record {
  process = λ x e. let empty : x.pid_instance ≡ [] = cc in rw empty tt;
  group = λ l e. absurd (cc);
  sequence = λ s e. absurd (cc);
}

launch_eq : (l l' : LaunchNode) → launch_of (some (launch l)) ≡ some l' → l ≡ l'
launch_eq l l' e = cc

sequence_eq : (s s' : SequenceNode) → sequence_of (some (sequence_node s)) ≡ some s' → s ≡ s'
sequence_eq s s' e = cc

pub idle_launch-IsIdle :
    (nodes : NameMap) (links : List Linkage) (externals : List Externalize)
    → IsIdle (idle_launch nodes links externals)
unfolding lookup
idle_launch-IsIdle nodes links externals = record {
  process = λ x e. absurd (cc);
  group = λ l e.
      let same : _ ≡ l = launch_eq _ l e in
      subst IsLaunch same (record { instances = tt; nodes = λ i x f. absurd (cc) });
  sequence = λ s e. absurd (cc);
}

pub idle_sequence-IsIdle :
    (nodes : NameMap) (order : List Text) → IsIdle (idle_sequence nodes order)
unfolding lookup
idle_sequence-IsIdle nodes order = record {
  process = λ x e. absurd (cc);
  group = λ l e. absurd (cc);
  sequence = λ s e.
      let same : _ ≡ s = sequence_eq _ s e in
      subst IsSequence same (record { sequences = tt; fd_maps = λ i r f. absurd (cc) });
}
