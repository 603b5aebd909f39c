-- ===== src/Dispatch/Programs.antt =====
-- An executable node of a sequence, and its start by `Dispatch.startup`.
use arclaunch.Prelude.{ℕ, suc, ◌≡◌, ◌≢◌, some, List, [], ◌∷◌, done, arith, ◌∙◌, ap, sym}
use arclaunch.Prelude.Map.{IsMap}
use arclaunch.Text.{Text}
use arclaunch.NameMap.{NameMap}
use arclaunch.Command.{env_sequence_to_env_data}
use arclaunch.Os.{Os, parent}
use arclaunch.Node.{CompletionHandler}
use arclaunch.Node.Instances.{
  add_instance_completion_handler, instance_is_running, finish_instance, begin_instance,
}
use arclaunch.Node.Instances
use arclaunch.Node.Fds.{close_fds}
use arclaunch.Process
use arclaunch.Node.Instances.Startup.{begun}
use arclaunch.Process.Running.{HasProcess, reaped, running, startup-running, running-HasProcess}
use arclaunch.Sequence.Course.{Runs}
use arclaunch.Sequence.Ready.{Ready}
use arclaunch.World.Frame.{OnlyAt, handed}
use arclaunch.Dispatch.{start_instance}
use arclaunch.World.{World, RunningSequence, Process, executable}

module _ {K : Type 0} where
  -- An executable node without handlers; descriptors may be linked to it.
  pub record IsProgram (w : World K) (n : ℕ) (x : Process) : Type 0 where
    pub derived : w.derived n ≡ some (executable x)
    pub is_map : IsMap (w.base n).instances
    pub no_handler : (w.base n).on_instance_death ≡ []
    pub quiet : (w.base n).on_death ≡ []

  pub IsProgram-reaped :
      (w : World K) (n j pid : ℕ) (y : Process) (n' : ℕ) (x : Process)
      → n' ≢ n
      → IsProgram w n' x
      → IsProgram (reaped n j pid y w) n' x
  IsProgram-reaped w n j pid y n' x ne h = record {
    derived = ground (arith, h.derived);
    is_map = h.is_map;
    no_handler = h.no_handler;
    quiet = h.quiet;
  }

  pub Ready-derived :
      (w v : World K) (p i : ℕ) (nodes : NameMap) (gone rest : List Text) (r : RunningSequence)
      → v.derived p ≡ w.derived p
      → Ready w p i nodes gone rest r
      → Ready v p i nodes gone rest r
  Ready-derived w v p i nodes gone rest r e h = record {
    runs = record {
      sequences = h.runs.sequences;
      derived = e ∙ h.runs.derived;
      is_map = h.runs.is_map;
      found = h.runs.found;
    };
    owner = h.owner;
    number = h.number;
    no_fds = h.no_fds;
    stage = h.stage;
  }

  pub not_sequence :
      (w : World K) (p i n : ℕ) (nodes : NameMap) (order : List Text) (r : RunningSequence)
      (x : Process)
      → Runs w p i nodes order r
      → w.derived n ≡ some (executable x)
      → n ≢ p
  not_sequence w p i n nodes order r x h d e = ground (arith, h.derived, ap w.derived e)

  pub HasProcess-same :
      (s v : World K) (n j pid : ℕ) (hs : List CompletionHandler)
      → v.running_nodes ≡ s.running_nodes
      → v.derived n ≡ s.derived n
      → v.base n ≡ s.base n
      → HasProcess s n j pid hs
      → HasProcess v n j pid hs
  HasProcess-same s v n j pid hs e d b h = record {
    process = h.process;
    registered = ground (arith, e, h.registered);
    is_map = rw e h.is_map;
    derived = d ∙ h.derived;
    number = h.number;
    handlers = ground (arith, b, h.handlers);
    instances_is_map = ground (arith, b, h.instances_is_map);
  }

  module _ (os : Os K) (rounds : ℕ) where
    start-program :
        (depth : ℕ) (u : World K) (n : ℕ) (x : Process)
        → u.derived n ≡ some (executable x)
        → (j : ℕ)
        → start_instance os rounds (suc depth) n j (begun os n j u)
          ≡ Process.start_instance os n j (begun os n j u)
    unfolding start_instance Process.start_instance
    start-program depth u n x d j = rw (start_instance, d)

    pub program-starts :
        (depth : ℕ) (w u : World K) (p n pid : ℕ) (h : CompletionHandler) (k : K) (x : Process)
        (envs : List Text)
        → OnlyAt p (handed n h w) u
        → n ≢ p
        → IsProgram w n x
        → env_sequence_to_env_data x.command.env_seq ≡ some envs
        → os.fork w.kernel ≡ parent pid k
        → IsMap w.running_nodes
        → (j : ℕ) × (s : World K) × (Instances.startup os (start_instance os rounds (suc depth)) n u
            ≡ done j s)
          × ((q : ℕ) → q ≢ n → s.derived q ≡ u.derived q)
          × HasProcess s n j pid (h ∷ [])
          × ((s.base n).on_death ≡ [])
          × ((q : ℕ) → q ≢ n → s.base q ≡ w.base q)
    unfolding add_instance_completion_handler close_fds begin_instance
    program-starts depth w u p n pid h k x envs o n-p prog env fork asc =
        let handler : (u.base n).on_instance_death ≡ h ∷ [] =
          ground (arith, o.base n, prog.no_handler) in
        let is_map : IsMap (u.base n).instances = ground (arith, o.base n, prog.is_map) in
        let derived : u.derived n ≡ some (executable x) = o.others n n-p ∙ prog.derived in
        let (j, e) =
          startup-running os (start_instance os rounds (suc depth)) u n pid k x envs
            (start-program depth u n x derived) derived env (ap os.fork o.kernel ∙ fork) is_map in
        (
          j,
          running os n j pid x k u,
          e,
          λ q ne. ground arith,
          rw (sym handler) (running-HasProcess os u n j pid k x is_map (rw o.running_nodes asc)),
          ground (arith, o.base n, prog.quiet),
          λ q ne. ground (arith, o.base q),
        )
