-- ===== src/Sequence/Start.antt =====
-- SequenceNode::startInstance, up to the call of `proceed`.
use arclaunch.Prelude.{ℕ, ◌≡◌, refl, none, some, List, [], Exec, arith, ◌∙◌}
use arclaunch.Prelude.Map.{Map, IsMap, lookup, insert, lookup-insert, insert-From}
use arclaunch.Text.{Text}
use arclaunch.NameMap.{NameMap}
use arclaunch.Os.{Os}
use arclaunch.Node.Fds.{pass_fds}
use arclaunch.Sequence.{start_instance, proceed_sequence, running_sequence, emplace, on_running}
use arclaunch.Sequence.Course.{Runs, the_running_lem}
use arclaunch.Sequence.Ready.{Ready}
use arclaunch.Sequence.Stage.{put_running-OnlyAt}
use arclaunch.World.Frame.{OnlyAt}
use arclaunch.World.{World, SequenceNode, RunningSequence, sequence_node, set_derived}

module _ {K : Type 0} (os : Os K) (rounds : ℕ) (startup : ℕ → Exec (World K) ℕ)
    (finish : ℕ → ℕ → ℕ → Exec (World K) (Unit {0})) where
  -- A new instance of a sequence node without descriptors is ready for its first node.
  pub start_instance-Ready :
      (w : World K) (p i : ℕ) (nodes : NameMap) (order : List Text)
      (sequences : Map RunningSequence)
      → w.derived p
        ≡ some (sequence_node (record { nodes = nodes; sequences = sequences; order = order }))
      → IsMap sequences
      → lookup i sequences ≡ none
      → (w.base p).fd_map ≡ []
      → (u : World K) × (r : RunningSequence) × Ready u p i nodes [] order r
        × OnlyAt p w u
        × (start_instance os rounds startup finish p i w
            ≡ proceed_sequence os rounds startup finish p i 0 u)
  unfolding start_instance emplace running_sequence on_running pass_fds
  start_instance-Ready w p i nodes order sequences d asc fresh fds =
      let r₀ = running_sequence p in
      let w₁ : World K = set_derived p (sequence_node s) w in
      let h₁ : Runs w₁ p i nodes order r₀ = record {
        sequences = insert i r₀ sequences;
        derived = ground arith;
        is_map = insert-From i 0 r₀ sequences (omega arith) asc;
        found = ground (arith, lookup-insert i r₀ sequences i);
      } in
      let (w₂, e₂, h₂, o₂) = put_running-OnlyAt w₁ p i nodes order r₀ r₀ h₁ in
      let (w₃, e₃, h₃, o₃) =
        put_running-OnlyAt w₂ p i nodes order r₀ (record r₀ { inst_num = some i }) h₂ in
      (
        w₃,
        record r₀ { inst_num = some i },
        record { runs = h₃; owner = refl; number = refl; no_fds = refl; stage = refl },
        record {
          base = λ q. o₃.base q ∙ o₂.base q;
          kernel = o₃.kernel ∙ o₂.kernel;
          running_nodes = o₃.running_nodes ∙ o₂.running_nodes;
          calls = o₃.calls ∙ o₂.calls;
          others = λ q ne. o₃.others q ne ∙ o₂.others q ne ∙ ground arith;
        },
        ground (
          arith,
          d,
          fresh,
          fds,
          the_running_lem w₁ p i nodes order r₀ h₁,
          e₂,
          the_running_lem w₂ p i nodes order r₀ h₂,
          e₃,
        ),
      )
    where
      s : SequenceNode
      s = record {
        nodes = nodes;
        sequences = insert i (running_sequence p) sequences;
        order = order;
      }
