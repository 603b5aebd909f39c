-- ===== src/Runs/Sequences.antt =====
-- The methods of SequenceNode keep a closed relation, if those of its nodes do.
use arclaunch.Prelude.{
  ℕ, ◌≡◌, refl, sym, ◌∙◌, subst, some, Exec, done, ◌>>=◌, ◌>>◌, negsuc, incr, arith, length, not,
  ◌||◌, ◌==◌,
}
use arclaunch.Prelude.Map.{lookup, insert, lookup-insert}
use arclaunch.NameMap.{find_name}
use arclaunch.Os.{Os}
use arclaunch.Node.{proceed}
use arclaunch.Node.Fds.{pass_fds}
use arclaunch.Node.Instances.{add_instance_completion_handler}
use arclaunch.World.{
  World, SequenceNode, RunningSequence, sequence_node, sequence_of, set_base, set_derived, on_node,
  modify,
}
use arclaunch.Sequence.{
  running_sequence, on_running, erase_running, emplace, the_running, put_running, start_stage,
  proceed_sequence, start_instance, stage_name, at_end, deref_value,
}
use arclaunch.Runs.{After, After-then, After-bind, After-deref, After-choice, After-deref_deref}
use arclaunch.Runs.Closed.{Closed}

module _ {K : Type 0} (os : Os K) (rounds : ℕ) (R T : World K → World K → Type 0)
    (c : Closed os rounds R T) where
  pub get_running-After :
      {B : Type 0} (p inst : ℕ) (k : RunningSequence → Exec (World K) B) (w : World K)
      → ((s : SequenceNode) (r : RunningSequence)
          → sequence_of (w.derived p) ≡ some s
          → lookup inst s.sequences ≡ some r
          → After R T w (k r w))
      → After R T w ((the_running p inst >>= k) w)
  unfolding the_running
  get_running-After p inst k w h =
      After-deref_deref R T (λ v. sequence_of (v.derived p)) (λ s v. lookup inst s.sequences) k w h

  -- The running sequence `r` is written back with other values and its own descriptors.
  put_running-After :
      (p inst : ℕ) (r t : RunningSequence) (s : SequenceNode) (w : World K)
      → sequence_of (w.derived p) ≡ some s
      → lookup inst s.sequences ≡ some r
      → t.node ≡ r.node
      → After R T w (put_running p inst t w)
  unfolding put_running
  put_running-After p inst r t s w found here node =
      After-deref R T (λ v. sequence_of (v.derived p)) _ w
        λ s' e.
          let both : some s ≡ some s' = sym found ∙ e in
          let same : s ≡ s' = cc in
          c.runs p inst s' r t w e (subst (λ s. lookup inst s.sequences ≡ some r) same here) node

  -- What is read after it is written.
  put_running_lem :
      (p inst : ℕ) (r : RunningSequence) (s : SequenceNode) (w : World K)
      → sequence_of (w.derived p) ≡ some s
      → put_running p inst r w
        ≡ done tt
            (set_derived p (sequence_node (record s { sequences = insert inst r s.sequences })) w)
  unfolding put_running
  put_running_lem p inst r s w found = rw (found, ◌>>=◌)

  written :
      (p inst : ℕ) (r : RunningSequence) (s : SequenceNode) (w t : World K) (a : Unit {0})
      → sequence_of (w.derived p) ≡ some s
      → put_running p inst r w ≡ done a t
      → (sequence_of (t.derived p) ≡ some (record s { sequences = insert inst r s.sequences }))
        × (lookup inst (insert inst r s.sequences) ≡ some r)
  written p inst r s w t a found e =
      let v =
        set_derived p (sequence_node (record s { sequences = insert inst r s.sequences })) w in
      let returns : done a t ≡ done tt v = sym e ∙ put_running_lem p inst r s w found in
      let same : v ≡ t = cc in
      (
        subst
            (λ t.
              sequence_of (t.derived p) ≡ some (record s { sequences = insert inst r s.sequences }))
            same (ground arith),
        ground (arith, lookup-insert inst r s.sequences inst),
      )

  module _ (startup : ℕ → Exec (World K) ℕ)
      (starts : (p : ℕ) (w : World K) → After R T w (startup p w))
      (finish_instance : ℕ → ℕ → ℕ → Exec (World K) (Unit {0}))
      (finishes : (p inst retval : ℕ) (w : World K)
        → After R T w (finish_instance p inst retval w)) where
    stage-After :
        (p inst : ℕ) (w : World K)
        → After R T w (start_stage os rounds startup finish_instance p inst w)
    unfolding start_stage
    stage-After p inst w = get_running-After p inst _ w λ s self e f.
        After-deref R T (λ v. sequence_of (v.derived self.owner)) _ w
          λ s' e'.
            After-deref R T (λ v. stage_name self.stage s'.order) _ w
              λ name g.
                After-deref R T (λ v. find_name name s'.nodes) _ w
                  λ node g'.
                    After-bind R T c.run
                      (put_running p inst (record self { current_node = some node })) _ w
                      (put_running-After p inst self _ s w e f refl)
                      λ a t h. entered p inst self node t
      where
        entered :
            (p inst : ℕ) (self : RunningSequence) (node : ℕ) (t : World K)
            → After R T t (
                (do
                  modify λ w.
                      set_base node
                        (add_instance_completion_handler (proceed p inst) (w.base node))
                        w
                  on_node node (pass_fds os rounds self.node.fd_map)
                  number ← startup node
                  self ← the_running p inst
                  put_running p inst (record self { current_stage_inst_num = some number }))
                  t)
        entered p inst self node t =
            let v =
              set_base node (add_instance_completion_handler (proceed p inst) (t.base node)) t in
            After-then R T c.run t v _ (c.awaits node (proceed p inst) t) (
              After-bind R T c.run (on_node node (pass_fds os rounds self.node.fd_map)) _ v
                (c.passes_all node self.node.fd_map v)
                λ a u e. After-bind R T c.run (startup node) _ u (starts node u) λ number x e.
                  get_running-After p inst _ x λ s r e f. put_running-After p inst r _ s x e f refl)

    stops :
        (p inst retval : ℕ) (self : RunningSequence) (s : SequenceNode) (t : World K)
        → sequence_of (t.derived p) ≡ some s
        → lookup inst s.sequences ≡ some (record self { stage = incr self.stage })
        → After R T t (
            (do
              put_running p inst (record self { stage = negsuc 0 })
              number ← deref_value self.inst_num
              erase_running os rounds self.owner number
              finish_instance self.owner (os.freed number) retval)
              t)
    stops p inst retval self s t found here =
        After-bind R T c.run (put_running p inst (record self { stage = negsuc 0 })) _ t
          (put_running-After p inst _ _ s t found here refl)
          λ a u g.
            After-deref R T (λ v. self.inst_num) _ u
              λ number h.
                After-bind R T c.run (erase_running os rounds self.owner number) _ u
                  (c.erases_running self.owner number u)
                  (λ b v h. finishes self.owner (os.freed number) retval v)

    pub proceed-After :
        (p inst retval : ℕ) (w : World K)
        → After R T w (proceed_sequence os rounds startup finish_instance p inst retval w)
    unfolding proceed_sequence
    proceed-After p inst retval w = get_running-After p inst _ w λ s self e f.
        After-bind R T c.run (put_running p inst (record self { stage = incr self.stage })) _ w
          (put_running-After p inst self _ s w e f refl)
          λ a t g.
            After-deref R T (λ v. sequence_of (v.derived self.owner)) _ t
              λ s' e'.
                After-choice R T c.run
                  (not (retval == 0) || at_end (incr self.stage) (length s'.order)) _
                  (start_stage os rounds startup finish_instance p inst) t
                  (stops p inst retval self _ t (written p inst _ s w t a e g).0
                    (written p inst _ s w t a e g).1)
                  (stage-After p inst t)

    pub start_sequence-After :
        (p inst : ℕ) (w : World K)
        → After R T w (start_instance os rounds startup finish_instance p inst w)
    unfolding start_instance
    start_sequence-After p inst w =
        After-deref R T (λ v. sequence_of (v.derived p)) _ w
          λ s e.
            let v =
              set_derived p
                (sequence_node
                  (record s { sequences = emplace inst (running_sequence p) s.sequences }))
                w in
            After-then R T c.run w v _ (c.starts p inst s w e) (
              After-bind R T c.run (λ w. on_running p inst (pass_fds os rounds (w.base p).fd_map) w)
                _ v (c.passes_running p inst (v.base p).fd_map v)
                λ a t f. get_running-After p inst _ t λ s r f g.
                  After-bind R T c.run (put_running p inst (record r { inst_num = some inst })) _ t
                    (put_running-After p inst r _ s t f g refl) (λ a u h. proceed-After p inst 0 u))
