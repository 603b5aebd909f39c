-- ===== src/Dispatch/Waiting.antt =====
-- LaunchNode::waitForInstance on a launch of programs.
use arclaunch.Prelude.{
  none, ℕ, zero, suc, ◌<◌, ◌≡◌, ◌≢◌, refl, ap, sym, ◌∙◌, subst, true, false, some, List, [], ◌∷◌,
  ◌++◌, map, Exec, done, ◌>>=◌, length, arith,
}
use arclaunch.Prelude.Map.{Map, IsMap, Each, lookup, erase}
use arclaunch.Os.{Os}
use arclaunch.Node.{external}
use arclaunch.Node.Instances.{instance_is_running}
use arclaunch.Node.Instances.Finish.{call_of}
use arclaunch.Launch
use arclaunch.Launch.{is_empty, the_instance, first_of}
use arclaunch.Launch.Deaths.{Waits, Ended}
use arclaunch.Launch.Waiting.{the_instance_lem}
use arclaunch.Dispatch
use arclaunch.Dispatch.Deaths.{not_launch, death_step, reaper-Waits_last}
use arclaunch.World.{World, Process, executable}
use arclaunch.Dispatch.Awaited.{taken_while, IsMember, wait_member, members_kept}

erase_first : (n j : ℕ) (m : Map ℕ) → erase n ((n, j) ∷ m) ≡ m
unfolding erase
erase_first n j m = ground arith

empty_lem : is_empty [] ≡ true
unfolding is_empty
empty_lem = refl

full_lem : (n j : ℕ) (m : Map ℕ) → is_empty ((n, j) ∷ m) ≡ false
unfolding is_empty
full_lem n j m = refl

-- The launch node has users' handlers only.
pub record IsUsers {K : Type 0} (p i : ℕ) (general own : List ℕ) (w : World K) : Type 0 where
  pub is_map : IsMap (w.base p).instances
  pub general_handlers : (w.base p).on_death ≡ map external general
  pub own_handlers : lookup i (w.base p).instances ≡ some (map external own)

module _ {K : Type 0} (os : Os K) (rounds depth : ℕ) (pids rets : ℕ → ℕ) where
  abbrev waiting : ℕ → ℕ → Exec (World K) (Unit {0})
  waiting =
      Dispatch.wait_for_instance os rounds (taken_while os rounds depth pids rets)
        (suc (suc (suc depth)))

  loop_step :
      (p i n j fuel : ℕ) (m : Map ℕ) (w v : World K)
      → Waits w p i ((n, j) ∷ m)
      → instance_is_running i (w.base p) ≡ true
      → waiting n j w ≡ done tt v
      → Launch.wait_for_instance waiting (suc fuel) p i w
        ≡ Launch.wait_for_instance waiting fuel p i v
  unfolding Launch.wait_for_instance
  loop_step p i n j fuel m w v waits runs waited =
      rw (◌>>=◌, runs, the_instance_lem w p i ((n, j) ∷ m) waits, waited)

  loop_stops :
      (p i fuel : ℕ) (v : World K)
      → instance_is_running i (v.base p) ≡ false
      → Launch.wait_for_instance waiting fuel p i v ≡ done tt v
  unfolding Launch.wait_for_instance
  loop_stops p i zero v e = rw e
  loop_stops p i (suc fuel) v e = rw e

  runs_of :
      (p i : ℕ) (general own : List ℕ) (w : World K)
      → IsUsers p i general own w
      → instance_is_running i (w.base p) ≡ true
  unfolding instance_is_running
  runs_of p i general own w users = ground (arith, users.own_handlers)

  kept-IsUsers :
      (p i n : ℕ) (general own : List ℕ) (w v : World K)
      → ((q : ℕ) → q ≢ n → v.base q ≡ w.base q)
      → n ≢ p
      → IsUsers p i general own w
      → IsUsers p i general own v
  kept-IsUsers p i n general own w v bases ne users =
      let same = bases p (λ e. ne (sym e)) in
      record {
        is_map = subst (λ b. IsMap b.instances) (sym same) users.is_map;
        general_handlers = ap (λ b. b.on_death) same ∙ users.general_handlers;
        own_handlers = ap (λ b. lookup i b.instances) same ∙ users.own_handlers;
      }

  rounds_end :
      (p i n j fuel : ℕ) (m : Map ℕ) (general own : List ℕ) (w : World K)
      → Waits w p i ((n, j) ∷ m)
      → IsMap ((n, j) ∷ m)
      → Each (IsMember os rounds depth pids rets p i w) ((n, j) ∷ m)
      → IsUsers p i general own w
      → length m < fuel
      → (v : World K) × (Launch.wait_for_instance waiting fuel p i w ≡ done tt v)
        × Ended v p i
        × (v.calls ≡ w.calls ++ map (call_of 0 p i) (general ++ own))
        × (instance_is_running i (v.base p) ≡ false)
  rounds_end p i n j zero m general own w waits asc members users lt = absurd (omega arith)
  rounds_end p i n j (suc fuel) [] general own w waits asc members users lt =
      let (v, e, ended, calls, down, down_sub) =
        reaper-Waits_last os rounds depth w p i n j (pids n) (rets n) ((n, j) ∷ []) general own
          waits members.0.has members.0.quiet (ap is_empty (erase_first n j []) ∙ empty_lem)
          users.is_map users.general_handlers users.own_handlers in
      (
        v,
        loop_step p i n j fuel [] w v waits (runs_of p i general own w users)
              (wait_member os rounds depth pids rets p i n j w v members.0 e down_sub)
            ∙ loop_stops p i fuel v down,
        ended,
        calls,
        down,
      )
  rounds_end p i n j (suc fuel) ((n', j') ∷ m) general own w waits asc members users lt =
      let (u, e, left, same, down, bases, numbers, classes) =
        death_step os rounds (suc depth) w p i n j (pids n) (rets n) ((n, j) ∷ (n', j') ∷ m) waits
          members.0.has members.0.quiet
          (ap is_empty (erase_first n j ((n', j') ∷ m)) ∙ full_lem n' j' m) in
      let no_launch = λ (q : ℕ) (x : Process) (d : w.derived q ≡ some (executable x)).
        not_launch w p i q ((n, j) ∷ (n', j') ∷ m) x waits d in
      let not_p = no_launch n members.0.has.process members.0.has.derived in
      let (v, returns, ended, calls, stopped) =
        rounds_end p i n' j' fuel m general own u
          (subst (λ l. Waits u p i l) (erase_first n j ((n', j') ∷ m)) left)
          (omega (arith, asc.1.0), asc.1.1)
          (members_kept os rounds depth pids rets p i n w u ((n', j') ∷ m) (suc n)
            members.0.has.registered bases numbers classes no_launch (omega arith) asc.1 members.1)
          (kept-IsUsers p i n general own w u bases not_p users) (omega arith) in
      (
        v,
        loop_step p i n j fuel ((n', j') ∷ m) w u waits (runs_of p i general own w users)
              (wait_member os rounds depth pids rets p i n j w u members.0 e down)
            ∙ returns,
        ended,
        calls ∙ ap (λ cs. cs ++ map (call_of 0 p i) (general ++ own)) same,
        stopped,
      )

  -- waitForInstance of a launch node that is no socket node returns, where its nodes are programs,
  -- the rounds are at least as many as the nodes and the depth is at least four, whatever the
  -- programs return, if the SIGCHLD handler takes each process while it is waited for: the launch
  -- instance has ended, the users' handlers of the launch node and of the instance have been called
  -- once each with the value 0, and the instance is not running. The nodes have no handler but the
  -- launch's, and the launch none but users'.
  pub wait_for_instance-Ended :
      (p i n j : ℕ) (m : Map ℕ) (general own : List ℕ) (w : World K)
      → Waits w p i ((n, j) ∷ m)
      → IsMap ((n, j) ∷ m)
      → Each (IsMember os rounds depth pids rets p i w) ((n, j) ∷ m)
      → IsUsers p i general own w
      → w.sockets p ≡ none
      → length m < rounds
      → (v : World K) × (Dispatch.wait_for_instance os rounds
            (taken_while os rounds depth pids rets)
            (suc (suc (suc (suc depth))))
            p
            i
            w
          ≡ done tt v)
        × Ended v p i
        × (v.calls ≡ w.calls ++ map (call_of 0 p i) (general ++ own))
        × (instance_is_running i (v.base p) ≡ false)
  unfolding Dispatch.wait_for_instance
  wait_for_instance-Ended p i n j m general own w waits asc members users no_socket lt =
      let (v, e, ended, calls, stopped) =
        rounds_end p i n j rounds m general own w waits asc members users lt in
      (v, rw (waits.derived, no_socket, Dispatch.wait_for_instance) e, ended, calls, stopped)
