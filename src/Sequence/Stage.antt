-- ===== src/Sequence/Stage.antt =====
-- RunningSequence::proceed up to the start of the next node, and from there on.
use arclaunch.Prelude.{
  ℕ, pos, negsuc, incr, ◌⊎◌, ◌≡◌, refl, false, some, List, [], ◌∷◌, ◌++◌, Exec, done, arith, ◌==◌,
  ◌∙◌, ap, length, length-append,
}
use mathlib.Core.List.{append_assoc}
use arclaunch.Prelude.Map.{insert, erase, lookup-insert, lookup-erase, insert-From}
use arclaunch.Text.{Text}
use arclaunch.NameMap.{NameMap, find_name}
use arclaunch.Os.{Os}
use arclaunch.Node.{CompletionHandler, proceed}
use arclaunch.Node.Fds.{pass_fds, close_all}
use arclaunch.Node.Instances.{add_instance_completion_handler}
use arclaunch.Sequence.{
  put_running, erase_running, start_stage, proceed_sequence, at_end, stage_name,
}
use arclaunch.Sequence.Course.{Runs, Ended, the_running_lem}
use arclaunch.Sequence.Ready.{Ready, Ready-stops, not_at_end, stage_name-append}
use arclaunch.World.Frame.{OnlyAt, handed}
use arclaunch.World.{World, SequenceNode, RunningSequence, sequence_node, at}

module _ {K : Type 0} where
  pub put_running-OnlyAt :
      (w : World K) (p i : ℕ) (nodes : NameMap) (order : List Text) (r r' : RunningSequence)
      → Runs w p i nodes order r
      → (v : World K) × (put_running p i r' w ≡ done tt v)
        × Runs v p i nodes order r'
        × OnlyAt p w v
  unfolding put_running
  put_running-OnlyAt w p i nodes order r r' h = (
    record w { derived = at w.derived p (some (sequence_node s)) },
    ground (arith, h.derived),
    record {
      sequences = insert i r' h.sequences;
      derived = ground arith;
      is_map = insert-From i 0 r' h.sequences (omega arith) h.is_map;
      found = ground (arith, lookup-insert i r' h.sequences i);
    },
    record {
      base = λ q. refl;
      kernel = refl;
      running_nodes = refl;
      calls = refl;
      others = λ q ne. ground arith;
    },
  )
    where
      s : SequenceNode
      s = record { nodes = nodes; sequences = insert i r' h.sequences; order = order }

  module _ (os : Os K) (rounds : ℕ) (startup : ℕ → Exec (World K) ℕ)
      (finish : ℕ → ℕ → ℕ → Exec (World K) (Unit {0})) where
    -- While nodes are left, an end with 0 hands the handler of the sequence to the next node and
    -- starts it; once that has returned, the sequence waits for the node after it.
    pub proceed_goes_on :
        (w : World K) (p i n : ℕ) (t : Text) (nodes : NameMap) (gone rest : List Text)
        (r : RunningSequence)
        → Ready w p i nodes gone (t ∷ rest) r
        → find_name t nodes ≡ some n
        → (u : World K) × OnlyAt p (handed n (proceed p i) w) u
          × ((j : ℕ) (s : World K)
              → startup n u ≡ done j s
              → s.derived p ≡ u.derived p
              → (v : World K) × (r' : RunningSequence) × (proceed_sequence os rounds startup finish
                    p i 0 w
                  ≡ done tt v)
                × Ready v p i nodes (gone ++ t ∷ []) rest r'
                × OnlyAt p s v)
    unfolding proceed_sequence start_stage pass_fds
    proceed_goes_on w p i n t nodes gone rest r h f =
        let order = gone ++ t ∷ rest in
        let r₁ : RunningSequence = record r { stage = incr r.stage } in
        let (w₁, e₁, h₁, o₁) = put_running-OnlyAt w p i nodes order r r₁ h.runs in
        let r₂ : RunningSequence = record r₁ { current_node = some n } in
        let (w₂, e₂, h₂, o₂) = put_running-OnlyAt w₁ p i nodes order r₁ r₂ h₁ in
        let u : World K = linked w₂ n (proceed p i) in
        (
          u,
          record {
            base = λ q. ground (arith, o₁.base q, o₂.base q, o₁.base n, o₂.base n);
            kernel = o₂.kernel ∙ o₁.kernel;
            running_nodes = o₂.running_nodes ∙ o₁.running_nodes;
            calls = o₂.calls ∙ o₁.calls;
            others = λ q ne. o₂.others q ne ∙ o₁.others q ne;
          },
          λ j s started kept.
              let h₃ : Runs s p i nodes order r₂ = record {
                sequences = h₂.sequences;
                derived = kept ∙ h₂.derived;
                is_map = h₂.is_map;
                found = h₂.found;
              } in
              let r₃ : RunningSequence = record r₂ { current_stage_inst_num = some j } in
              let (v, e₃, h₄, o₃) = put_running-OnlyAt s p i nodes order r₂ r₃ h₃ in
              (
                v,
                r₃,
                ground (
                  arith,
                  the_running_lem w p i nodes order r h.runs,
                  e₁,
                  h₁.derived,
                  h.owner,
                  h.no_fds,
                  ap (λ x. at_end x (length order)) h.stage ∙ not_at_end gone rest t,
                  the_running_lem w₁ p i nodes order r₁ h₁,
                  ap (λ x. stage_name x order) h.stage ∙ stage_name-append gone rest t,
                  f,
                  e₂,
                  started,
                  the_running_lem s p i nodes order r₂ h₃,
                  e₃,
                ),
                record {
                  runs = rw (append_assoc gone (t ∷ []) rest) h₄;
                  owner = h.owner;
                  number = h.number;
                  no_fds = h.no_fds;
                  stage = ap incr h.stage ∙ ap pos (omega (arith, length-append {0} gone (t ∷ [])));
                },
                o₃,
              ),
        )
      where
        linked : World K → ℕ → CompletionHandler → World K
        linked v n h =
            let waiting = add_instance_completion_handler h (v.base n) in
            record v { base = at (at v.base n waiting) n (at v.base n waiting n) }

    erase_running-OnlyAt :
        (w : World K) (p i : ℕ) (nodes : NameMap) (order : List Text) (r : RunningSequence)
        → Runs w p i nodes order r
        → r.node.fd_map ≡ []
        → (v : World K) × (erase_running os rounds p i w ≡ done tt v) × Ended v p i × OnlyAt p w v
    unfolding erase_running close_all
    erase_running-OnlyAt w p i nodes order r h fds = (
      record w { derived = at w.derived p (some (sequence_node s)) },
      ground (arith, h.derived, the_running_lem w p i nodes order r h, fds),
      record {
        node = s;
        derived = ground arith;
        gone = ground (arith, lookup-erase i i 0 h.sequences h.is_map);
      },
      record {
        base = λ q. refl;
        kernel = refl;
        running_nodes = refl;
        calls = refl;
        others = λ q ne. ground arith;
      },
    )
      where
        s : SequenceNode
        s = record { nodes = nodes; sequences = erase i h.sequences; order = order }

    -- An end with another value than 0, or one with no node left, is the end of the sequence.
    pub proceed_stops :
        (w : World K) (p i retval : ℕ) (nodes : NameMap) (gone rest : List Text)
        (r : RunningSequence)
        → os.freed i ≡ i
        → Ready w p i nodes gone rest r
        → ((retval == 0) ≡ false) ⊎ (rest ≡ [])
        → (u : World K) × Ended u p i
          × OnlyAt p w u
          × (proceed_sequence os rounds startup finish p i retval w ≡ finish p i retval u)
    unfolding proceed_sequence
    proceed_stops w p i retval nodes gone rest r kept h why =
        let order = gone ++ rest in
        let (w₁, e₁, h₁, o₁) =
          put_running-OnlyAt w p i nodes order r (record r { stage = incr r.stage }) h.runs in
        let (w₂, e₂, h₂, o₂) =
          put_running-OnlyAt w₁ p i nodes order _ (record r { stage = negsuc 0 }) h₁ in
        let (u, e₃, ended, o₃) = erase_running-OnlyAt w₂ p i nodes order _ h₂ h.no_fds in
        (
          u,
          ended,
          record {
            base = λ q. o₃.base q ∙ o₂.base q ∙ o₁.base q;
            kernel = o₃.kernel ∙ o₂.kernel ∙ o₁.kernel;
            running_nodes = o₃.running_nodes ∙ o₂.running_nodes ∙ o₁.running_nodes;
            calls = o₃.calls ∙ o₂.calls ∙ o₁.calls;
            others = λ q ne. o₃.others q ne ∙ o₂.others q ne ∙ o₁.others q ne;
          },
          ground (
            arith,
            the_running_lem w p i nodes order r h.runs,
            e₁,
            h₁.derived,
            h.owner,
            h.number,
            kept,
            Ready-stops w p i retval nodes gone rest r h why,
            e₂,
            e₃,
          ),
        )
