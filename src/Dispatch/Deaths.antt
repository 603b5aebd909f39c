-- ===== src/Dispatch/Deaths.antt =====
-- The end of a sub-node of a LaunchNode that is a program, from the SIGCHLD handler to the user.
use arclaunch.Prelude.{
  ℕ, suc, ◌≡◌, refl, ◌≢◌, true, false, some, List, [], ◌∷◌, ◌++◌, map, done, arith, ◌∙◌, ap,
}
use arclaunch.Prelude.Map.{Map, IsMap, lookup, erase, lookup-erase}
use arclaunch.Os.{Os}
use arclaunch.Node.{sub_node_death, external}
use arclaunch.Node.Instances.{instance_is_running, finish_instance}
use arclaunch.Node.Instances.Finish.{call_of, finished, finish_instance-finished}
use arclaunch.Process.Running.{HasProcess, reaped, without, reaper-HasProcess}
use arclaunch.Launch.{is_empty}
use arclaunch.Launch.Deaths.{Waits, Ended}
use arclaunch.Launch.Waiting.{death_left, death_last}
use arclaunch.Dispatch.{handle, reaper}
use arclaunch.World.{World, Process, executable}

module _ {K : Type 0} where
  Waits-derived :
      (w v : World K) (p i : ℕ) (m : Map ℕ)
      → v.derived p ≡ w.derived p
      → Waits w p i m
      → Waits v p i m
  Waits-derived w v p i m e h = record {
    node = h.node;
    derived = e ∙ h.derived;
    is_map = h.is_map;
    found = h.found;
  }

  pub not_launch :
      (w : World K) (p i n : ℕ) (m : Map ℕ) (x : Process)
      → Waits w p i m
      → w.derived n ≡ some (executable x)
      → n ≢ p
  not_launch w p i n m x h d e = ground (arith, h.derived, ap w.derived e)

  module _ (os : Os K) (rounds : ℕ) where
    -- What the end of a process of the launch leaves, where others are left.
    pub death_step :
        (depth : ℕ) (w : World K) (p i n j pid retval : ℕ) (m : Map ℕ)
        → Waits w p i m
        → HasProcess w n j pid (sub_node_death p i ∷ [])
        → (w.base n).on_death ≡ []
        → is_empty (erase n m) ≡ false
        → (v : World K) × (reaper os rounds (suc depth) pid retval w ≡ done tt v)
          × Waits v p i (erase n m)
          × (v.calls ≡ w.calls)
          × (instance_is_running j (v.base n) ≡ false)
          × ((q : ℕ) → q ≢ n → v.base q ≡ w.base q)
          × (v.running_nodes ≡ erase pid w.running_nodes)
          × ((q : ℕ) → q ≢ n → q ≢ p → v.derived q ≡ w.derived q)
    unfolding reaper handle instance_is_running
    death_step depth w p i n j pid retval m h has quiet left =
        let w₁ : World K = reaped n j pid has.process w in
        let n-p = not_launch w p i n m has.process h has.derived in
        let (v, e, waits, o) =
          death_left (finish_instance (handle os rounds depth)) w₁ p i retval n j m
            (Waits-derived w w₁ p i m (ground arith) h) left in
        (
          without n j v,
          reaper-HasProcess (handle os rounds (suc depth)) w v n j pid retval (sub_node_death p i)
              has quiet e,
          Waits-derived v (without n j v) p i (erase n m) refl waits,
          o.calls,
          ground (arith, o.base n, lookup-erase j j 0 (w.base n).instances has.instances_is_map),
          λ q ne. ground (arith, o.base q),
          o.running_nodes,
          λ q ne np. ground (arith, o.others q np),
        )

    -- When a process of a launch ends, with whatever value, and others are left for which the launch
    -- waits, the SIGCHLD handler only takes its node off the launch: no user's handler is called, and
    -- the instance that ended is not running. The node is assumed to have no handler but the
    -- launch's.
    pub reaper-Waits :
        (depth : ℕ) (w : World K) (p i n j pid retval : ℕ) (m : Map ℕ)
        → Waits w p i m
        → HasProcess w n j pid (sub_node_death p i ∷ [])
        → (w.base n).on_death ≡ []
        → is_empty (erase n m) ≡ false
        → (v : World K) × (reaper os rounds (suc depth) pid retval w ≡ done tt v)
          × Waits v p i (erase n m)
          × (v.calls ≡ w.calls)
          × (instance_is_running j (v.base n) ≡ false)
          × ((q : ℕ) → q ≢ n → v.base q ≡ w.base q)
    reaper-Waits depth w p i n j pid retval m h has quiet left =
        let (v, e, waits, calls, ends, others, numbers, classes) =
          death_step depth w p i n j pid retval m h has quiet left in
        (v, e, waits, calls, ends, others)

    -- When the last process of a launch ends, with whatever value, the SIGCHLD handler ends the
    -- launch: the launch instance is gone, the user's handlers of the launch node and of its instance
    -- are called once each with the value 0, and neither the instance of the launch nor that of the
    -- node is running. The node is assumed to have no handler but the launch's, and the launch none
    -- but users'.
    pub reaper-Waits_last :
        (depth : ℕ) (w : World K) (p i n j pid retval : ℕ) (m : Map ℕ) (general own : List ℕ)
        → Waits w p i m
        → HasProcess w n j pid (sub_node_death p i ∷ [])
        → (w.base n).on_death ≡ []
        → is_empty (erase n m) ≡ true
        → IsMap (w.base p).instances
        → (w.base p).on_death ≡ map external general
        → lookup i (w.base p).instances ≡ some (map external own)
        → (v : World K) × (reaper os rounds (suc (suc depth)) pid retval w ≡ done tt v)
          × Ended v p i
          × (v.calls ≡ w.calls ++ map (call_of 0 p i) (general ++ own))
          × (instance_is_running i (v.base p) ≡ false)
          × (instance_is_running j (v.base n) ≡ false)
    unfolding reaper handle instance_is_running
    reaper-Waits_last depth w p i n j pid retval m general own h has quiet last asc eg eo =
        let w₁ : World K = reaped n j pid has.process w in
        let n-p = not_launch w p i n m has.process h has.derived in
        let call = handle os rounds (suc depth) in
        let (u, waits, o, go) =
          death_last (finish_instance call) w₁ p i retval n j m
            (Waits-derived w w₁ p i m (ground arith) h) last in
        let s : World K = finished 0 p i (general ++ own) u in
        let (v, e, ended, o') =
          go s
            (finish_instance-finished call 0 p i general own u (λ tag x y z t. refl)
              (ap (λ b. b.on_death) (o.base p) ∙ eg)
              (ap (λ b. lookup i b.instances) (o.base p) ∙ eo))
            refl in
        (
          without n j v,
          reaper-HasProcess (handle os rounds (suc (suc depth))) w v n j pid retval
              (sub_node_death p i) has quiet e,
          record { node = ended.node; derived = ended.derived; gone = ended.gone },
          o'.calls ∙ ap (λ cs. cs ++ map (call_of 0 p i) (general ++ own)) o.calls,
          ground (arith, o'.base p, o.base p, lookup-erase i i 0 (w.base p).instances asc),
          ground (
            arith,
            o'.base n,
            o.base n,
            lookup-erase j j 0 (w.base n).instances has.instances_is_map,
          ),
        )
