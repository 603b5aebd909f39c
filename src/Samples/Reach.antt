-- ===== src/Samples/Reach.antt =====
-- A group of two programs is started, and the first of them ends.
use arclaunch.Prelude.{
  ℕ, ◌≡◌, refl, subst, arith, Bool-cases, inl, inr, ◌==◌, Option, none, some, List, [], ◌∷◌, ◌⊎◌,
  ◌≢◌, Outcome, done, thrown, exited, undefined, no_fuel,
}
use arclaunch.Prelude.Map.{IsMap, lookup, insert, erase}
use arclaunch.Text.{text_eq}
use arclaunch.NameMap.{find_name}
use arclaunch.Launch.{open_link, on_sub_node_death}
use arclaunch.Node.Instances
use arclaunch.Node.Instances.{free_instance, begin_instance, finish_instance, run_handlers}
use arclaunch.Node.Fds.{close_fds}
use arclaunch.Runs.Plain.{IsSequence}
use arclaunch.Dispatch
use arclaunch.Runs.Shape.{SameShape}
use arclaunch.Os.Table.{Table, table_os, table_posix}
use arclaunch.World.{
  World, Derived, Process, LaunchNode, SequenceNode, process_of, launch_of, sequence_of,
}
use arclaunch.Runs.Closed.{IsLaunch}
use arclaunch.Runs.WellFormed.{IsWellFormed}
use arclaunch.Runs.Accounts.{Held}
use arclaunch.Runs.Accounts.Returned.{perform_all, perform_all-Held}
use arclaunch.Runs.Events.{
  Event, link, start_node, child_ended, perform, Reach, here, next, returns,
}
use arclaunch.Runs.Reached.{Reach-IsWellFormed, Reach-SameShape}
use arclaunch.Samples.{pair}

abbrev left : Outcome (World Table) (Unit {0}) → World Table
left (done a w) = w
left (thrown e w) = w
left (exited c w) = w
left undefined = pair
left no_fuel = pair

abbrev started : World Table
started = left (perform table_os 17 2 (start_node 0) pair)

abbrev first_ended : World Table
first_ended = left (perform table_os 17 2 (child_ended 100 5) started)

started_lem : perform table_os 17 2 (start_node 0) pair ≡ done tt started
unfolding perform Dispatch.startup Instances.startup free_instance lookup open_link find_name
    text_eq insert
started_lem = refl

ended_lem : perform table_os 17 2 (child_ended 100 5) started ≡ done tt first_ended
unfolding perform Dispatch.startup Instances.startup free_instance lookup open_link find_name
    text_eq insert Dispatch.reaper close_fds begin_instance finish_instance run_handlers
    on_sub_node_death erase
ended_lem = refl

start : Reach table_os 17 2 pair started
start = next here (returns (start_node 0) started_lem)

start_and_end : Reach table_os 17 2 pair first_ended
start_and_end = next start (returns (child_ended 100 5) ended_lem)

pair_node :
    (P : Option Derived → Type 0)
    → P (pair.derived 0)
    → P (pair.derived 1)
    → (p : ℕ) → P (pair.derived p)
pair_node P h k p = elim (Bool-cases (p == 0)) [ inl e ↦ rw e h | inr e ↦ rw e k ]

no_launches : (l : LaunchNode) → launch_of (pair.derived 0) ≡ some l → IsLaunch l
unfolding lookup
no_launches l e =
    let empty : l.instances ≡ [] = cc in
    record {
      instances = rw empty tt;
      nodes = λ i x f.
          let gone : lookup i [] ≡ some x = subst (λ m. lookup i m ≡ some x) empty f in absurd (cc);
    }

pair-IsWellFormed : IsWellFormed pair
unfolding lookup
pair-IsWellFormed = record {
  instances = λ p. ground arith;
  fd_maps = λ p. ground arith;
  running_nodes = omega arith;
  processes =
      pair_node (λ d. (x : Process) → process_of d ≡ some x → IsMap x.pid_instance)
        (λ x e. absurd (cc)) (λ x e. let none_yet : x.pid_instance ≡ [] = cc in rw none_yet tt);
  launches =
      pair_node (λ d. (l : LaunchNode) → launch_of d ≡ some l → IsLaunch l) no_launches
        (λ l e. absurd (cc));
  sequences =
      pair_node (λ d. (s : SequenceNode) → sequence_of d ≡ some s → IsSequence s)
        (λ s e. absurd (cc)) (λ s e. absurd (cc));
  registered = λ pid n e. absurd (cc);
}

Reach-IsWellFormed_example : IsWellFormed first_ended
Reach-IsWellFormed_example = Reach-IsWellFormed table_os 17 2 pair-IsWellFormed start_and_end

Reach-SameShape_example : SameShape pair first_ended
Reach-SameShape_example = Reach-SameShape table_os 17 2 start_and_end

-- The group is started, and then its second program gets the descriptor 0 for its output.
abbrev start_and_link : List Event
start_and_link = start_node 0 ∷ link 2 1 0 ∷ []

abbrev linked : World Table
linked = left (perform_all table_os 17 2 start_and_link pair)

perform_all-Held_example : Held linked 3 ⊎ (table_posix.file pair.kernel 3 ≢ none)
unfolding perform Dispatch.startup Instances.startup free_instance lookup open_link find_name
    text_eq insert close_fds begin_instance perform_all
perform_all-Held_example =
    perform_all-Held table_posix 17 (omega arith) 2 start_and_link pair linked pair-IsWellFormed
      (λ p. refl) refl 3 (λ e. absurd (cc))
