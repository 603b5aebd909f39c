-- ===== src/Dispatch/Stages.antt =====
-- A SequenceNode whose nodes are programs, with the SIGCHLD handler, the completion handlers and
-- `startup` as Dispatch.antt ties them.
use arclaunch.Prelude.{
  ◌==◌, ◌⊎◌, map, ℕ, suc, ◌≡◌, refl, sym, ◌≢◌, false, some, List, [], ◌∷◌, ◌++◌, done, arith, ◌∙◌,
  ap,
}
use arclaunch.Prelude.Map.{erase, lookup, IsMap, lookup-erase, erase-From}
use arclaunch.Text.{Text}
use arclaunch.NameMap.{NameMap, find_name}
use arclaunch.Command.{env_sequence_to_env_data}
use arclaunch.Os.{Os, parent}
use arclaunch.Node.{proceed, external}
use arclaunch.Node.Instances.{
  add_instance_completion_handler, instance_is_running, finish_instance, begin_instance,
}
use arclaunch.Node.Instances
use arclaunch.Process.Running.{HasProcess, reaped, without, reaper-HasProcess}
use arclaunch.Sequence.Course.{Ended}
use arclaunch.Node.Instances.Finish.{call_of, finished, finish_instance-finished}
use arclaunch.Sequence.Ready.{Ready}
use arclaunch.Sequence.Stage.{proceed_goes_on, proceed_stops}
use arclaunch.Dispatch.{start_instance, handle, reaper}
use arclaunch.World.{World, RunningSequence, Process}
use arclaunch.Dispatch.Programs.{
  IsProgram, IsProgram-reaped, Ready-derived, not_sequence, HasProcess-same, program-starts,
}

module _ {K : Type 0} where
  -- The instance `i` of the sequence `p` waits for the process `pid` of the instance `j` of the node
  -- `n`, the last of the nodes `gone`; the nodes `rest` are left.
  pub record StageRuns (w : World K) (p i : ℕ) (nodes : NameMap) (gone rest : List Text)
      (r : RunningSequence) (n j pid : ℕ) : Type 0 where
    pub ready : Ready w p i nodes gone rest r
    pub process : HasProcess w n j pid (proceed p i ∷ [])
    pub quiet : (w.base n).on_death ≡ []

  module _ (os : Os K) (rounds : ℕ) where
    -- In a sequence without linked descriptors, whose running node has no handler but that of the
    -- sequence: when the process ends with 0 and a node is left, which is another program, without
    -- handlers, and can be forked, then the SIGCHLD handler starts that node. Afterwards the sequence
    -- waits for the new process, and the instance that ended is not running. Two levels of nested
    -- calls are enough.
    pub reaper-StageRuns :
        (depth : ℕ) (w : World K) (p i n j pid n' pid' : ℕ) (k : K) (t : Text) (nodes : NameMap)
        (gone rest : List Text) (r : RunningSequence) (x : Process) (envs : List Text)
        → StageRuns w p i nodes gone (t ∷ rest) r n j pid
        → find_name t nodes ≡ some n'
        → n' ≢ n
        → IsProgram w n' x
        → env_sequence_to_env_data x.command.env_seq ≡ some envs
        → os.fork w.kernel ≡ parent pid' k
        → (v : World K) × (r' : RunningSequence) × (j' : ℕ) × (reaper os rounds
              (suc (suc depth))
              pid
              0
              w
            ≡ done tt v)
          × StageRuns v p i nodes (gone ++ t ∷ []) rest r' n' j' pid'
          × (instance_is_running j (v.base n) ≡ false)
    unfolding reaper handle instance_is_running
    reaper-StageRuns depth w p i n j pid n' pid' k t nodes gone rest r x envs h f ne prog env fork =
        let w₁ : World K = reaped n j pid h.process.process w in
        let n-p : n ≢ p =
          not_sequence w p i n nodes _ r h.process.process h.ready.runs h.process.derived in
        let n'-p : n' ≢ p = not_sequence w p i n' nodes _ r x h.ready.runs prog.derived in
        let (u, o, go) =
          proceed_goes_on os rounds (Instances.startup os (start_instance os rounds (suc depth)))
            (finish_instance (handle os rounds (suc depth))) w₁ p i n' t nodes gone rest r
            (Ready-derived w w₁ p i nodes gone (t ∷ rest) r (ground arith) h.ready) f in
        let (j', s, e, kept, has, quiet, others) =
          program-starts os rounds depth w₁ u p n' pid' (proceed p i) k x envs o n'-p
            (IsProgram-reaped w n j pid h.process.process n' x ne prog) env fork
            (erase-From pid 0 w.running_nodes h.process.is_map) in
        let (v, r', e', ready, o') = go j' s e (kept p λ e. n'-p (sym e)) in
        (
          without n j v,
          r',
          j',
          reaper-HasProcess (handle os rounds (suc (suc depth))) w v n j pid 0 (proceed p i)
              h.process h.quiet e',
          record {
            ready = Ready-derived v (without n j v) p i nodes (gone ++ t ∷ []) rest r' refl ready;
            process =
                HasProcess-same s (without n j v) n' j' pid' _ o'.running_nodes (o'.others n' n'-p)
                  (ground (arith, o'.base n')) has;
            quiet = ground (arith, o'.base n', quiet);
          },
          ground (
            arith,
            o'.base n,
            others n,
            lookup-erase j j 0 (w.base n).instances h.process.instances_is_map,
          ),
        )

    -- In a sequence without linked descriptors, whose running node has no handler but that of the
    -- sequence: when the process ends with another value than 0, or no node is left, the SIGCHLD
    -- handler starts no node. The running sequence is gone, the user's handlers of the sequence and
    -- of its instance are called once each with the return value, and neither the instance of the
    -- sequence nor that of the node is running. It is assumed that the freed memory still holds the
    -- instance's number, and that all handlers of the sequence are users'.
    pub reaper-Ended :
        (depth : ℕ) (w : World K) (p i n j pid retval : ℕ) (nodes : NameMap) (gone rest : List Text)
        (r : RunningSequence) (general own : List ℕ)
        → os.freed i ≡ i
        → StageRuns w p i nodes gone rest r n j pid
        → ((retval == 0) ≡ false) ⊎ (rest ≡ [])
        → IsMap (w.base p).instances
        → (w.base p).on_death ≡ map external general
        → lookup i (w.base p).instances ≡ some (map external own)
        → (v : World K) × (reaper os rounds (suc (suc depth)) pid retval w ≡ done tt v)
          × Ended v p i
          × (v.calls ≡ w.calls ++ map (call_of retval p i) (general ++ own))
          × (v.running_nodes ≡ erase pid w.running_nodes)
          × (instance_is_running i (v.base p) ≡ false)
          × (instance_is_running j (v.base n) ≡ false)
    unfolding reaper handle instance_is_running
    reaper-Ended depth w p i n j pid retval nodes gone rest r general own kept h why asc eg eo =
        let w₁ : World K = reaped n j pid h.process.process w in
        let n-p : n ≢ p =
          not_sequence w p i n nodes _ r h.process.process h.ready.runs h.process.derived in
        let call = handle os rounds (suc depth) in
        let (u, ended, o, e) =
          proceed_stops os rounds (Instances.startup os (start_instance os rounds (suc depth)))
            (finish_instance call) w₁ p i retval nodes gone rest r kept
            (Ready-derived w w₁ p i nodes gone rest r (ground arith) h.ready) why in
        let u' : World K = finished retval p i (general ++ own) u in
        (
          without n j u',
          reaper-HasProcess (handle os rounds (suc (suc depth))) w u' n j pid retval (proceed p i)
              h.process h.quiet
              (e
                ∙ finish_instance-finished call retval p i general own u (λ tag x y z s. refl)
                    (ap (λ b. b.on_death) (o.base p) ∙ eg)
                    (ap (λ b. lookup i b.instances) (o.base p) ∙ eo)),
          record { node = ended.node; derived = ended.derived; gone = ended.gone },
          ap (λ cs. cs ++ map (call_of retval p i) (general ++ own)) o.calls,
          o.running_nodes,
          ground (arith, o.base p, lookup-erase i i 0 (w.base p).instances asc),
          ground
              (arith, o.base n, lookup-erase j j 0 (w.base n).instances h.process.instances_is_map),
        )
