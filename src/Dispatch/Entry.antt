-- ===== src/Dispatch/Entry.antt =====
-- `Dispatch.startup` of a SequenceNode whose nodes are programs.
use arclaunch.Prelude.{
  ℕ, suc, ◌≡◌, refl, ◌≢◌, false, none, some, List, [], ◌∷◌, done, arith, ◌∙◌, ap, sym,
}
use arclaunch.Prelude.Map.{Map, IsMap, lookup, lookup-insert}
use arclaunch.Text.{Text}
use arclaunch.NameMap.{NameMap, find_name}
use arclaunch.Command.{env_sequence_to_env_data}
use arclaunch.Os.{Os, parent}
use arclaunch.Node.{proceed}
use arclaunch.Node.Fds.{close_fds, close_all}
use arclaunch.Node.Instances.{instance_is_running, finish_instance, begin_instance}
use arclaunch.Node.Instances
use arclaunch.Node.Instances.Startup.{IsFirstFree, startup_lem, begun, started, closed}
use arclaunch.Sequence
use arclaunch.Sequence.Start.{start_instance-Ready}
use arclaunch.Sequence.Ready.{Ready}
use arclaunch.Process.Running.{HasProcess}
use arclaunch.Sequence.Stage.{proceed_goes_on}
use arclaunch.World.Frame.{OnlyAt}
use arclaunch.Dispatch.{start_instance, handle, startup}
use arclaunch.Dispatch.Programs.{IsProgram, Ready-derived, HasProcess-same, program-starts}
use arclaunch.Dispatch.Stages.{StageRuns}
use arclaunch.World.{World, RunningSequence, Process, sequence_node}

module _ {K : Type 0} (os : Os K) (rounds : ℕ) where
  start-sequence :
      (depth : ℕ) (w : World K) (p i : ℕ) (nodes : NameMap) (order : List Text)
      (sequences : Map RunningSequence)
      → w.derived p
        ≡ some (sequence_node (record { nodes = nodes; sequences = sequences; order = order }))
      → start_instance os rounds (suc depth) p i (begun os p i w)
        ≡ Sequence.start_instance os rounds
            (Instances.startup os (start_instance os rounds depth))
            (finish_instance (handle os rounds depth))
            p
            i
            (begun os p i w)
  unfolding start_instance Sequence.start_instance
  start-sequence depth w p i nodes order sequences d = rw (start_instance, d)

  closed-others : (w : World K) (p n : ℕ) → n ≢ p → (closed os p w).base n ≡ w.base n
  closed-others w p n ne = ground arith

  closed-instances :
      (w : World K) (p : ℕ) → ((closed os p w).base p).instances ≡ (w.base p).instances
  unfolding close_fds
  closed-instances w p = ground arith

  begun-registered :
      (w : World K) (p i : ℕ)
      → lookup i ((begun os p i w).base p).instances ≡ some (w.base p).on_instance_death
  unfolding begin_instance
  begun-registered w p i =
      ground (arith, lookup-insert i (w.base p).on_instance_death (w.base p).instances i)

  StageRuns-closed :
      (s v : World K) (p i n j pid : ℕ) (nodes : NameMap) (gone rest : List Text)
      (r : RunningSequence)
      → n ≢ p
      → OnlyAt p s v
      → Ready v p i nodes gone rest r
      → HasProcess s n j pid (proceed p i ∷ [])
      → (s.base n).on_death ≡ []
      → StageRuns (closed os p v) p i nodes gone rest r n j pid
  StageRuns-closed s v p i n j pid nodes gone rest r n-p o ready has quiet =
      let base : (closed os p v).base n ≡ s.base n = closed-others v p n n-p ∙ o.base n in
      record {
        ready = Ready-derived v (closed os p v) p i nodes gone rest r refl ready;
        process =
            HasProcess-same s (closed os p v) n j pid _ o.running_nodes (o.others n n-p) base has;
        quiet = ap (λ b. b.on_death) base ∙ quiet;
      }

  closed-registered :
      (w u s v : World K) (p i : ℕ)
      → OnlyAt p (begun os p i w) u
      → s.base p ≡ u.base p
      → OnlyAt p s v
      → lookup i ((closed os p v).base p).instances ≡ some (w.base p).on_instance_death
  closed-registered w u s v p i o e o' =
      ap (λ m. lookup i m) (closed-instances v p ∙ ap (λ b. b.instances) (o'.base p ∙ e ∙ o.base p))
      ∙ begun-registered w p i

  IsProgram-begun :
      (w u : World K) (p i n : ℕ) (x : Process)
      → n ≢ p
      → OnlyAt p (begun os p i w) u
      → IsProgram w n x
      → IsProgram u n x
  IsProgram-begun w u p i n x n-p o prog = record {
    derived = o.others n n-p ∙ prog.derived;
    is_map = ground (arith, o.base n, prog.is_map);
    no_handler = ground (arith, o.base n, prog.no_handler);
    quiet = ground (arith, o.base n, prog.quiet);
  }

  -- `startup` on a sequence node without descriptors, whose first node is a program without handlers
  -- that can be forked: the new instance has the least free number and the handlers that were
  -- waiting, its first node runs, and the sequence waits for that node's process.
  pub startup-StageRuns :
      (depth : ℕ) (w : World K) (p n pid : ℕ) (k : K) (t : Text) (nodes : NameMap)
      (rest : List Text) (sequences : Map RunningSequence) (x : Process) (envs : List Text)
      → w.derived p
        ≡ some (sequence_node (record { nodes = nodes; sequences = sequences; order = t ∷ rest }))
      → IsMap sequences
      → ((i : ℕ) → instance_is_running i (w.base p) ≡ false → lookup i sequences ≡ none)
      → (w.base p).fd_map ≡ []
      → IsMap (w.base p).instances
      → IsMap w.running_nodes
      → find_name t nodes ≡ some n
      → IsProgram w n x
      → env_sequence_to_env_data x.command.env_seq ≡ some envs
      → os.fork w.kernel ≡ parent pid k
      → (i : ℕ) × (v : World K) × (r : RunningSequence) × (j : ℕ) × (startup os rounds
            (suc (suc depth))
            p
            w
          ≡ done i v)
        × StageRuns v p i nodes (t ∷ []) rest r n j pid
        × IsFirstFree (w.base p) i
        × (lookup i (v.base p).instances ≡ some (w.base p).on_instance_death)
  unfolding startup begin_instance close_fds close_all
  startup-StageRuns depth w p n pid k t nodes rest sequences x envs d asc fresh fds up reg f prog
        env fork =
      let n-p : n ≢ p = λ e. ground (arith, d, prog.derived, ap w.derived e) in
      let (i, free, begins) = startup_lem os (start_instance os rounds (suc (suc depth))) p w up in
      let start = Instances.startup os (start_instance os rounds (suc depth)) in
      let finish = finish_instance (handle os rounds (suc depth)) in
      let (u₀, r₀, ready₀, o₀, e₀) =
        start_instance-Ready os rounds start finish (begun os p i w) p i nodes (t ∷ rest) sequences
          d asc (fresh i free.free) (ground (arith, fds)) in
      let (u, o, go) =
        proceed_goes_on os rounds start finish u₀ p i n t nodes [] rest r₀ ready₀ f in
      let (j, s, e, kept, has, quiet, others) =
        program-starts os rounds depth u₀ u p n pid (proceed p i) k x envs o n-p
          (IsProgram-begun w u₀ p i n x n-p o₀ prog) env (ap os.fork o₀.kernel ∙ fork)
          (rw o₀.running_nodes reg) in
      let (v, r, e', ready, o') = go j s e (kept p λ e. n-p (sym e)) in
      (
        i,
        closed os p v,
        r,
        j,
        begins
            ∙ ap (started os p i)
                (start-sequence (suc depth) w p i nodes (t ∷ rest) sequences d ∙ e₀ ∙ e'),
        StageRuns-closed s v p i n j pid nodes (t ∷ []) rest r n-p o' ready has quiet,
        free,
        closed-registered w u₀ s v p i o₀ (others p λ e. n-p (sym e)) o',
      )
