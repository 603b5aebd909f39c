-- ===== src/Runs/Shape.antt =====
-- What no operation changes: the class of a node, its command, its nodes, its links and its order.
-- The calls of users' handlers are only added to.
use arclaunch.Prelude.{
  ℕ, ◌≡◌, refl, sym, ◌∙◌, ap, subst, Option, none, some, List, ◌++◌, [], ◌∷◌, arith, ◌==◌,
  Bool-cases, true, false, ◌⊎◌, inl, inr,
}
use mathlib.Core.List.{append_assoc, append-nil}
use arclaunch.Prelude.Map.{Map, insert, erase}
use arclaunch.Text.{Text}
use arclaunch.NameMap.{NameMap}
use arclaunch.Element.{Linkage, Externalize}
use arclaunch.Command.{ExecutableNode}
use arclaunch.Node.Instances.{begin_instance, add_instance_completion_handler}
use arclaunch.World.{
  World, Call, Process, LaunchNode, SequenceNode, Derived, executable, launch, sequence_node,
  process_of, launch_of, sequence_of, at, set_base, set_derived,
}
use arclaunch.Runs.Plain.{Plain}

-- The class, with the values that stand in the launch file.
pub data Fixed : Type 0 where
  nothing : Fixed
  program : ExecutableNode → Fixed
  group_of : NameMap → List Linkage → List Externalize → Fixed
  ordered : NameMap → List Text → Fixed

abbrev pub fixed : Option Derived → Fixed
fixed none = nothing
fixed (some (executable x)) = program x.command
fixed (some (launch l)) = group_of l.nodes l.links l.externals
fixed (some (sequence_node s)) = ordered s.nodes s.order

pub record SameShape {K : Type 0} (w v : World K) : Type 0 where
  pub classes : (p : ℕ) → fixed (v.derived p) ≡ fixed (w.derived p)
  pub added : List Call
  pub calls : v.calls ≡ w.calls ++ added

process_fixed : (d : Option Derived) (x : Process) → process_of d ≡ some x → d ≡ some (executable x)
process_fixed none x e = cc
process_fixed (some (launch y)) x e = cc
process_fixed (some (sequence_node y)) x e = cc
process_fixed (some (executable y)) x e = cc

launch_fixed : (d : Option Derived) (l : LaunchNode) → launch_of d ≡ some l → d ≡ some (launch l)
launch_fixed none l e = cc
launch_fixed (some (executable x)) l e = cc
launch_fixed (some (sequence_node x)) l e = cc
launch_fixed (some (launch x)) l e = cc

sequence_fixed :
    (d : Option Derived) (s : SequenceNode) → sequence_of d ≡ some s → d ≡ some (sequence_node s)
sequence_fixed none s e = cc
sequence_fixed (some (executable x)) s e = cc
sequence_fixed (some (launch x)) s e = cc
sequence_fixed (some (sequence_node x)) s e = cc

module _ {K : Type 0} where
  SameShape-trans : (w v u : World K) → SameShape w v → SameShape v u → SameShape w u
  SameShape-trans w v u h k = record {
    classes = λ p. k.classes p ∙ h.classes p;
    added = h.added ++ k.added;
    calls = k.calls ∙ ap (λ cs. cs ++ k.added) h.calls ∙ append_assoc w.calls h.added k.added;
  }

  pub unchanged : (w v : World K) → v.derived ≡ w.derived → v.calls ≡ w.calls → SameShape w v
  unchanged w v d c = record {
    classes = λ p. ap (λ (d : ℕ → Option Derived). fixed (d p)) d;
    added = [];
    calls = c ∙ sym (append-nil w.calls);
  }

  reclassed :
      (w : World K) (p : ℕ) (d : Derived) (running : Map ℕ)
      → fixed (some d) ≡ fixed (w.derived p)
      → SameShape w (set_derived p d (record w { running_nodes = running }))
  reclassed w p d running h = record {
    classes = λ q. class_at q (Bool-cases (p == q));
    added = [];
    calls = sym (append-nil w.calls);
  }
    where
      class_at :
          (q : ℕ)
          → ((p == q) ≡ true) ⊎ ((p == q) ≡ false)
          → fixed (at w.derived p (some d) q) ≡ fixed (w.derived q)
      class_at q (inl e) =
          let same : p ≡ q = ground arith in
          rw e (subst (λ q. fixed (some d) ≡ fixed (w.derived q)) same h)
      class_at q (inr e) = rw e refl

  pub Shape-Plain : Plain {K = K} SameShape
  Shape-Plain = record {
    same = λ w. unchanged w w refl refl;
    then_run = SameShape-trans;
    kernel = λ k w. unchanged w (record w { kernel = k }) refl refl;
    fds = λ p m w h. unchanged w (set_base p (record (w.base p) { fd_map = m }) w) refl refl;
    begins = λ p inst w. unchanged w (set_base p (begin_instance inst (w.base p)) w) refl refl;
    ends = λ p inst w. unchanged w (set_base p _ w) refl refl;
    awaits = λ p h w.
        unchanged w (set_base p (add_instance_completion_handler h (w.base p)) w) refl refl;
    calls = λ c w. record { classes = λ p. refl; added = c ∷ []; calls = refl };
    reaping = λ w. unchanged w (record w { reaping = true }) refl refl;
    registers = λ p pid inst x w e.
        reclassed w p _ (insert pid p w.running_nodes)
          (ap fixed (sym (process_fixed (w.derived p) x e)));
    reaps = λ p pid x w e.
        reclassed w p _ (erase pid w.running_nodes)
          (ap fixed (sym (process_fixed (w.derived p) x e)));
    launches = λ p l m w e f.
        reclassed w p _ w.running_nodes (ap fixed (sym (launch_fixed (w.derived p) l e)));
    sequences = λ p s m w e f.
        reclassed w p _ w.running_nodes (ap fixed (sym (sequence_fixed (w.derived p) s e)));
    sockets = λ p t w. unchanged w (record w { sockets = at w.sockets p (some t) }) refl refl;
  }
