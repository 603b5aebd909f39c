-- ===== src/Dispatch/Members.antt =====
-- A LaunchNode whose sub-nodes are programs: the loop of `startInstance` that starts them.
use arclaunch.Prelude.{ℕ, suc, ◌≡◌, refl, ◌≢◌, some, List, [], ◌∷◌, done, arith, ◌∙◌, ap, sym, All}
use arclaunch.Prelude.Map.{Map, IsMap, lookup, insert, lookup-insert}
use arclaunch.Text.{Text}
use arclaunch.NameMap.{NameMap}
use arclaunch.Command.{env_sequence_to_env_data}
use arclaunch.Os.{Os, parent}
use arclaunch.Node.{sub_node_death}
use arclaunch.Node.Instances
use arclaunch.Launch.{start_nodes}
use arclaunch.Launch.Deaths.{Waits}
use arclaunch.Launch.Waiting.{the_instance_lem, put_instance-Waits}
use arclaunch.Dispatch.{start_instance}
use arclaunch.Dispatch.Programs.{IsProgram, program-starts}
use arclaunch.World.Frame.{handed}
use arclaunch.World.{World, Process}

-- No two names stand for the same node.
abbrev pub Apart : NameMap → Type 0
Apart [] = Unit {0}
Apart ((t, n) ∷ ns) = All (λ e. e.1 ≢ n) ns × Apart ns

module _ {K : Type 0} where
  -- A program that can be started.
  pub record IsStartable (w : World K) (n : ℕ) : Type 0 where
    pub process : Process
    pub program : IsProgram w n process
    pub envs : List Text
    pub env : env_sequence_to_env_data process.command.env_seq ≡ some envs

  -- The node has an instance for which the launch instance waits, and whose end it is told.
  pub record IsMember (w : World K) (p i : ℕ) (m : Map ℕ) (n : ℕ) : Type 0 where
    pub inst : ℕ
    pub noted : lookup n m ≡ some inst
    pub told : lookup inst (w.base n).instances ≡ some (sub_node_death p i ∷ [])

  abbrev pub Forks : Os K → Type 0
  Forks os = (k : K) → (pid : ℕ) × (k' : K) × (os.fork k ≡ parent pid k')

  IsStartable-same :
      (w v : World K) (n : ℕ)
      → v.derived n ≡ w.derived n
      → v.base n ≡ w.base n
      → IsStartable w n
      → IsStartable v n
  IsStartable-same w v n d b h = record {
    process = h.process;
    program = record {
      derived = d ∙ h.program.derived;
      is_map = ground (arith, b, h.program.is_map);
      no_handler = ground (arith, b, h.program.no_handler);
      quiet = ground (arith, b, h.program.quiet);
    };
    envs = h.envs;
    env = h.env;
  }

  IsMember-same :
      (w v : World K) (p i : ℕ) (m m' : Map ℕ) (n : ℕ)
      → v.base n ≡ w.base n
      → lookup n m' ≡ lookup n m
      → IsMember w p i m n
      → IsMember v p i m' n
  IsMember-same w v p i m m' n b l h = record {
    inst = h.inst;
    noted = l ∙ h.noted;
    told = ground (arith, b, h.told);
  }

  not_launch : (w : World K) (p i n : ℕ) (m : Map ℕ) → Waits w p i m → IsStartable w n → n ≢ p
  not_launch w p i n m h s e = ground (arith, h.derived, s.program.derived, ap w.derived e)

  IsStartable-rest :
      (w v : World K) (p i n : ℕ) (m : Map ℕ)
      → Waits w p i m
      → ((q : ℕ) → q ≢ n → v.base q ≡ w.base q)
      → ((q : ℕ) → q ≢ n → q ≢ p → v.derived q ≡ w.derived q)
      → (ns : NameMap) → All (λ e. e.1 ≢ n) ns
      → All (λ e. IsStartable w e.1) ns
      → All (λ e. IsStartable v e.1) ns
  IsStartable-rest w v p i n m h base derived [] apart progs = tt
  IsStartable-rest w v p i n m h base derived ((t, q) ∷ ns) (ne, apart) (prog, progs) = (
    IsStartable-same w v q (derived q ne (not_launch w p i q m h prog)) (base q ne) prog,
    IsStartable-rest w v p i n m h base derived ns apart progs,
  )

  module _ (os : Os K) (rounds : ℕ) where
    -- One round of the loop.
    start_node :
        (depth : ℕ) (w : World K) (p i n : ℕ) (t : Text) (ns : NameMap) (m : Map ℕ)
        → Forks os
        → Waits w p i m
        → IsMap w.running_nodes
        → IsStartable w n
        → (v : World K) × (m' : Map ℕ) × (start_nodes os rounds
              (Instances.startup os (start_instance os rounds (suc depth)))
              p
              i
              ((t, n) ∷ ns)
              w
            ≡ start_nodes os rounds
                (Instances.startup os (start_instance os rounds (suc depth)))
                p
                i
                ns
                v)
          × Waits v p i m'
          × IsMap v.running_nodes
          × IsMember v p i m' n
          × ((q : ℕ) → q ≢ n → v.base q ≡ w.base q)
          × ((q : ℕ) → q ≢ n → q ≢ p → v.derived q ≡ w.derived q)
          × ((q : ℕ) → q ≢ n → lookup q m' ≡ lookup q m)
    unfolding start_nodes
    start_node depth w p i n t ns m forks h reg prog =
        let n-p = not_launch w p i n m h prog in
        let (pid, k, fork) = forks w.kernel in
        let u : World K = handed n (sub_node_death p i) w in
        let (j, s, e, kept, has, quiet, others) =
          program-starts os rounds depth w u p n pid (sub_node_death p i) k prog.process prog.envs
            record {
              base = λ q. refl;
              kernel = refl;
              running_nodes = refl;
              calls = refl;
              others = λ q ne. refl;
            }
            n-p prog.program prog.env fork reg in
        let waits : Waits s p i m = record {
          node = h.node;
          derived = kept p (λ e. n-p (sym e)) ∙ h.derived;
          is_map = h.is_map;
          found = h.found;
        } in
        let (v, e', waits', o) = put_instance-Waits s p i m (insert n j m) waits in
        (
          v,
          insert n j m,
          ground (arith, e, the_instance_lem s p i m waits, e'),
          waits',
          rw o.running_nodes has.is_map,
          record {
            inst = j;
            noted = ground (arith, lookup-insert n j m n);
            told = ground (arith, o.base n, has.handlers);
          },
          (λ q ne. o.base q ∙ others q ne),
          (λ q ne ne'. o.others q ne' ∙ kept q ne),
          λ q ne. ground (arith, lookup-insert n j m q),
        )

    -- Every sub-node of a launch whose sub-nodes are programs without handlers gets an instance, if
    -- no two names stand for the same node and processes can be forked: the launch instance waits
    -- for exactly these instances besides those it waited for, and each will tell it its end.
    pub start_nodes-Waits :
        (depth : ℕ) (w : World K) (p i : ℕ) (ns : NameMap) (m : Map ℕ)
        → Forks os
        → Waits w p i m
        → IsMap w.running_nodes
        → Apart ns
        → All (λ e. IsStartable w e.1) ns
        → (v : World K) × (m' : Map ℕ) × (start_nodes os rounds
              (Instances.startup os (start_instance os rounds (suc depth)))
              p
              i
              ns
              w
            ≡ done tt v)
          × Waits v p i m'
          × All (λ e. IsMember v p i m' e.1) ns
          × ((q : ℕ) → All (λ e. e.1 ≢ q) ns → v.base q ≡ w.base q)
          × ((q : ℕ) → All (λ e. e.1 ≢ q) ns → lookup q m' ≡ lookup q m)
    unfolding start_nodes
    start_nodes-Waits depth w p i [] m forks h reg apart progs =
        (w, m, refl, h, tt, (λ q h. refl), λ q h. refl)
    start_nodes-Waits depth w p i ((t, n) ∷ ns) m forks h reg apart progs =
        let (w₁, m₁, e, waits, reg₁, member, base, derived, noted) =
          start_node depth w p i n t ns m forks h reg progs.0 in
        let (v, m', e', waits', members, base', noted') =
          start_nodes-Waits depth w₁ p i ns m₁ forks waits reg₁ apart.1
            (IsStartable-rest w w₁ p i n m h base derived ns apart.0 progs.1) in
        (
          v,
          m',
          e ∙ e',
          waits',
          (IsMember-same w₁ v p i m₁ m' n (base' n apart.0) (noted' n apart.0) member, members),
          (λ q ne. base' q ne.1 ∙ base q (λ x. ne.0 (sym x))),
          λ q ne. noted' q ne.1 ∙ noted q (λ x. ne.0 (sym x)),
        )
