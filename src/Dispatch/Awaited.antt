-- ===== src/Dispatch/Awaited.antt =====
-- Waiting for one program of a launch, and what that leaves of the others.
use arclaunch.Prelude.{
  ℕ, suc, ◌<◌, ◌≡◌, ◌≢◌, refl, ap, sym, ◌∙◌, subst, Bool, true, false, none, some, List, [], ◌∷◌,
  Exec, done, ◌>>=◌, arith, ◌==◌, if◌then◌else◌,
}
use arclaunch.Prelude.Map.{Map, IsMap, From, Each, lookup, erase, lookup-erase, erase-From}
use arclaunch.Os.{Os}
use arclaunch.Node.{sub_node_death}
use arclaunch.Node.Instances.{instance_is_running, finish_instance}
use arclaunch.Process.Running.{HasProcess}
use arclaunch.Process.Wait
use arclaunch.Process.Wait.{Waited, failed_wait, find_pid, wait_round, run_reaper}
use arclaunch.Process.Wait.Race.{wait_loop_once}
use arclaunch.Dispatch
use arclaunch.Dispatch.{handle, reaper}
use arclaunch.World.{World, Process, executable}

if_else : {A : Type 0} (t : Bool) (a b : A) → ¬ (t ≡ true) → (if t then a else b) ≡ b
if_else true a b h = absurd (h refl)
if_else false a b h = refl

same_node : (x y n q : ℕ) (m : Map ℕ) → x ≡ y → lookup x m ≡ some n → lookup y m ≡ some q → q ≡ n
same_node x y n q m e found found' =
    let both : some n ≡ some q = sym found ∙ ap (λ z. lookup z m) e ∙ found' in cc

module _ {K : Type 0} (os : Os K) (rounds depth : ℕ) (pids rets : ℕ → ℕ) where
  abbrev pub caller : ℕ → ℕ → ℕ → Exec (World K) (Unit {0})
  caller = finish_instance (handle os rounds (suc (suc depth)))

  -- The answers of waitpid: while it is blocked, the SIGCHLD handler takes the process.
  abbrev pub taken_while : ℕ → ℕ → List Waited
  taken_while n j = failed_wait ((pids n, rets n) ∷ []) ∷ []

  abbrev wait_program : ℕ → ℕ → Exec (World K) (Unit {0})
  wait_program n j = Wait.wait_for_instance caller n j (taken_while n j)

  -- A node of the launch with its instance: a program with no handler but the launch's, whose last
  -- process for the instance runs.
  pub record IsMember (p i : ℕ) (w : World K) (n j : ℕ) : Type 0 where
    pub has : HasProcess w n j (pids n) (sub_node_death p i ∷ [])
    pub quiet : (w.base n).on_death ≡ []
    pub last : find_pid j has.process.pid_instance none ≡ some (pids n)

  up : (p i n j : ℕ) (w : World K) → IsMember p i w n j → instance_is_running j (w.base n) ≡ true
  unfolding instance_is_running
  up p i n j w member = ground (arith, member.has.handlers)

  round_reaps :
      (n : ℕ) (w v : World K)
      → reaper os rounds (suc (suc depth)) (pids n) (rets n) w ≡ done tt v
      → wait_round caller n (some (pids n)) (failed_wait ((pids n, rets n) ∷ [])) w ≡ done tt v
  unfolding wait_round run_reaper reaper
  round_reaps n w v e = rw (◌>>=◌, e)

  wait_program_lem :
      (p i n j : ℕ) (w v : World K)
      → IsMember p i w n j
      → reaper os rounds (suc (suc depth)) (pids n) (rets n) w ≡ done tt v
      → instance_is_running j (v.base n) ≡ false
      → wait_program n j w ≡ done tt v
  unfolding Wait.wait_for_instance
  wait_program_lem p i n j w v member e down = ground (
    arith,
    member.has.derived,
    member.last,
    wait_loop_once caller w v n j (some (pids n)) (failed_wait ((pids n, rets n) ∷ [])) []
        (up p i n j w member) (round_reaps n w v e) down,
  )

  pub wait_member :
      (p i n j : ℕ) (w v : World K)
      → IsMember p i w n j
      → reaper os rounds (suc (suc depth)) (pids n) (rets n) w ≡ done tt v
      → instance_is_running j (v.base n) ≡ false
      → Dispatch.wait_for_instance os rounds taken_while (suc (suc (suc depth))) n j w ≡ done tt v
  unfolding Dispatch.wait_for_instance
  wait_member p i n j w v member e down =
      rw (member.has.derived, Dispatch.wait_for_instance)
        (wait_program_lem p i n j w v member e down)

  -- The other nodes of the launch, after one has ended.
  kept :
      (p i n : ℕ) (w v : World K)
      → lookup (pids n) w.running_nodes ≡ some n
      → ((q : ℕ) → q ≢ n → v.base q ≡ w.base q)
      → v.running_nodes ≡ erase (pids n) w.running_nodes
      → ((q : ℕ) → q ≢ n → q ≢ p → v.derived q ≡ w.derived q)
      → (q j : ℕ) → q ≢ n
      → q ≢ p
      → IsMember p i w q j
      → IsMember p i v q j
  kept p i n w v registered bases numbers classes q j other not_p member = record {
    has = record {
      process = member.has.process;
      registered =
          ap (λ m. lookup (pids q) m) numbers
          ∙ lookup-erase (pids n) (pids q) 0 w.running_nodes member.has.is_map
          ∙ if_else (pids n == pids q) none (lookup (pids q) w.running_nodes) (λ same. other (
              same_node (pids n) (pids q) n q w.running_nodes (ground (arith, same)) registered
                member.has.registered))
          ∙ member.has.registered;
      is_map = subst IsMap (sym numbers) (erase-From (pids n) 0 w.running_nodes member.has.is_map);
      derived = classes q other not_p ∙ member.has.derived;
      number = member.has.number;
      handlers = ap (λ b. lookup j b.instances) (bases q other) ∙ member.has.handlers;
      instances_is_map =
          subst (λ b. IsMap b.instances) (sym (bases q other)) member.has.instances_is_map;
    };
    quiet = ap (λ b. b.on_death) (bases q other) ∙ member.quiet;
    last = member.last;
  }

  pub members_kept :
      (p i n : ℕ) (w v : World K) (m : Map ℕ) (k : ℕ)
      → lookup (pids n) w.running_nodes ≡ some n
      → ((q : ℕ) → q ≢ n → v.base q ≡ w.base q)
      → v.running_nodes ≡ erase (pids n) w.running_nodes
      → ((q : ℕ) → q ≢ n → q ≢ p → v.derived q ≡ w.derived q)
      → ((q : ℕ) (x : Process) → w.derived q ≡ some (executable x) → q ≢ p)
      → n < k
      → From k m
      → Each (IsMember p i w) m
      → Each (IsMember p i v) m
  members_kept p i n w v [] k registered bases numbers classes no_launch lt asc h = tt
  members_kept p i n w v ((q, j) ∷ m) k registered bases numbers classes no_launch lt asc h = (
    kept p i n w v registered bases numbers classes q j (λ e. omega (arith, e, asc.0))
        (no_launch q h.0.has.process h.0.has.derived) h.0,
    members_kept p i n w v m (suc q) registered bases numbers classes no_launch
        (omega (arith, asc.0)) asc.1 h.1,
  )
