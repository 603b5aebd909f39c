-- ===== src/Runs/Accounts/Running.antt =====
-- Running sequences leave the descriptors accounted for.
use arclaunch.Prelude.{
  ℕ, ◌≡◌, ◌<◌, refl, sym, ◌∙◌, subst, none, some, inl, inr, Outcome, done, thrown, exited,
  undefined, no_fuel, arith, ◌==◌, Bool-cases, Option-cases, false, ◌>>=◌, ◌>>◌, throw,
}
use arclaunch.Prelude.Map.{Map, IsMap, lookup, insert, erase, lookup-insert, lookup-erase}
use arclaunch.Os.{Os, Posix}
use arclaunch.Node.Fds.{Local, pass_fds, close_all}
use arclaunch.Node.Fds.Close.{file-close_all}
use arclaunch.World.{World, SequenceNode, RunningSequence, sequence_node, sequence_of, set_derived}
use arclaunch.Sequence.{
  on_running, put_running, the_running, erase_running, emplace, running_sequence,
}
use arclaunch.Runs.Plain.{IsSequence}
use arclaunch.Runs.Plain.Steps.{insert-IsSequence, erase-IsSequence, emplace-IsSequence}
use arclaunch.Runs.WellFormed.Kept.{WellFormed-Plain}
use arclaunch.Runs.Accounts.{Has, by_sequence, Post, Post-deref, Post-deref_deref}
use arclaunch.Runs.Accounts.Local.{Adds, pass_fds-Adds}
use arclaunch.Runs.Accounts.Holders.{sequence_holds, replaced}
use arclaunch.Runs.Accounts.Nodes.{Accounted, assigned}

module _ {K : Type 0} {os : Os K} (px : Posix os) (rounds : ℕ) (Others : ℕ → Type 0) where
  abbrev I : World K → Type 0
  I = Accounted px rounds Others

  abbrev with_sequences : ℕ → SequenceNode → Map RunningSequence → World K → World K
  with_sequences p s m w = set_derived p (sequence_node (record s { sequences = m })) w

  -- The sequence node takes a map in which every descriptor keeps a holder.
  sequence_assigned :
      (p : ℕ) (s : SequenceNode) (m : Map RunningSequence) (w : World K)
      → sequence_of (w.derived p) ≡ some s
      → (IsSequence s → IsSequence (record s { sequences = m }))
      → ((c inst : ℕ) (r : RunningSequence)
          → lookup inst s.sequences ≡ some r
          → Has c r.node.fd_map
          → (i : ℕ) × (t : RunningSequence) × (lookup i m ≡ some t) × Has c t.node.fd_map)
      → I w
      → I (with_sequences p s m w)
  sequence_assigned p s m w found ok keep h =
      assigned px rounds Others w (with_sequences p s m w) refl
        (WellFormed-Plain.sequences p s m w found ok) (λ c o. o)
        (λ c. sequence_holds w (with_sequences p s m w) c p s m found refl refl (keep c)) h

  pub starts-Accounted :
      (p inst : ℕ) (s : SequenceNode) (w : World K)
      → sequence_of (w.derived p) ≡ some s
      → I w
      → I (with_sequences p s (emplace inst (running_sequence p) s.sequences) w)
  unfolding emplace
  starts-Accounted p inst s w found h =
      sequence_assigned p s _ w found (emplace-IsSequence s inst p)
        (λ c i r e has. kept c i r e has) h
    where
      kept :
          (c i : ℕ) (r : RunningSequence)
          → lookup i s.sequences ≡ some r
          → Has c r.node.fd_map
          → (j : ℕ) × (t : RunningSequence) × (lookup j
                (emplace inst (running_sequence p) s.sequences)
              ≡ some t)
            × Has c t.node.fd_map
      kept c i r e has = elim (Option-cases (lookup inst s.sequences)) [
        | inr (x, f) ↦ (i, r, rw f e, has)
        | inl f ↦
            let apart : (inst == i) ≡ false = ground (arith, f, e) in
            let there : lookup i (insert inst (running_sequence p) s.sequences) ≡ some r =
              lookup-insert inst (running_sequence p) s.sequences i ∙ rw apart e in
            (i, r, rw f there, has)
      ]

  pub runs-Accounted :
      (p inst : ℕ) (s : SequenceNode) (r t : RunningSequence) (w : World K)
      → sequence_of (w.derived p) ≡ some s
      → lookup inst s.sequences ≡ some r
      → t.node ≡ r.node
      → I w
      → I (with_sequences p s (insert inst t s.sequences) w)
  runs-Accounted p inst s r t w found here node h =
      sequence_assigned p s (insert inst t s.sequences) w found
        (insert-IsSequence s inst t
          (λ ok. subst (λ n. IsMap n.fd_map) (sym node) (ok.fd_maps inst r here)))
        (λ c. replaced c inst r t s.sequences here (subst (λ n. Has c n.fd_map) (sym node))) h

  -- The running sequence takes what `passFds` opens.
  running_takes :
      (p inst : ℕ) (s : SequenceNode) (r : RunningSequence) (w : World K) (l : Local K)
      → sequence_of (w.derived p) ≡ some s
      → lookup inst s.sequences ≡ some r
      → Adds px (record { node = r.node; kernel = w.kernel }) l
      → I w
      → I (
          with_sequences p s
            (insert inst (record r { node = l.node }) s.sequences)
            (record w { kernel = l.kernel }))
  running_takes p inst s r w l found here adds h =
      let t : RunningSequence = record r { node = l.node } in
      let m = insert inst t s.sequences in
      let v = with_sequences p s m (record w { kernel = l.kernel }) in
      record {
        well_formed =
            WellFormed-Plain.sequences p s m (record w { kernel = l.kernel }) found
              (insert-IsSequence s inst t (λ ok. adds.only.is_map (ok.fd_maps inst r here)))
              (WellFormed-Plain.kernel l.kernel w h.well_formed);
        no_sockets = h.no_sockets;
        open_ones = λ c o. elim (adds.opened c o) [
          | inl has ↦ inl (
              by_sequence p inst (record s { sequences = m }) t (ground arith)
                (lookup-insert inst t s.sequences inst ∙ ground arith) has)
          | inr was ↦ elim (h.open_ones c was) [
            | inr other ↦ inr other
            | inl held ↦ inl (
                sequence_holds w v c p s m found refl refl
                  (replaced c inst r t s.sequences here (adds.kept c)) held)
          ]
        ];
      }

  pub passes_running-Accounted :
      px.limit < rounds
      → (p inst : ℕ) (m : Map ℕ) (w : World K) → I w
      → Post I (on_running p inst (pass_fds os rounds m) w)
  unfolding on_running the_running put_running
  passes_running-Accounted enough p inst m w h =
      Post-deref_deref I (λ v. sequence_of (v.derived p)) (λ s v. lookup inst s.sequences) _ w
        λ s r e f.
          let l : Local K = record { node = r.node; kernel = w.kernel } in
          taken s r e f (pass_fds os rounds m l) (pass_fds-Adds px rounds enough m l)
    where
      taken :
          (s : SequenceNode) (r : RunningSequence)
          → sequence_of (w.derived p) ≡ some s
          → lookup inst s.sequences ≡ some r
          → (o : Outcome (Local K) (Unit {0}))
          → Post (Adds px (record { node = r.node; kernel = w.kernel })) o
          → Post I (elim o as (λ o. Outcome (World K) (Unit {0})) [
            | done u l ↦
                put_running p inst (record r { node = l.node }) (record w { kernel = l.kernel })
            | thrown x l ↦
                (do put_running p inst (record r { node = l.node }); throw x)
                  (record w { kernel = l.kernel })
            | exited n l ↦ exited n (record w { kernel = l.kernel })
            | undefined ↦ undefined
            | no_fuel ↦ no_fuel
          ])
      taken s r e f (done u l) adds = rw (e, ◌>>=◌) (running_takes p inst s r w l e f adds h)
      taken s r e f (thrown x l) adds = rw (e, ◌>>=◌) tt
      taken s r e f (exited n l) adds = tt
      taken s r e f undefined adds = tt
      taken s r e f no_fuel adds = tt

  -- The destructor of a running sequence closes what it holds.
  erased :
      (p inst : ℕ) (s : SequenceNode) (r : RunningSequence) (w : World K)
      → sequence_of (w.derived p) ≡ some s
      → lookup inst s.sequences ≡ some r
      → I w
      → I (record (with_sequences p s (erase inst s.sequences) w) {
        kernel = close_all os r.node.fd_map w.kernel;
      })
  erased p inst s r w found here h =
      let m = erase inst s.sequences in
      let k = close_all os r.node.fd_map w.kernel in
      let v = record (with_sequences p s m w) { kernel = k } in
      let ok = h.well_formed.sequences p s found in
      record {
        well_formed =
            WellFormed-Plain.kernel k (with_sequences p s m w)
              (WellFormed-Plain.sequences p s m w found (erase-IsSequence s inst) h.well_formed);
        no_sockets = h.no_sockets;
        open_ones = λ c o. elim (Option-cases (lookup c r.node.fd_map)) [
          | inr (fd, e) ↦ absurd (o (file-close_all px r.node.fd_map w.kernel c ∙ rw e refl))
          | inl e ↦
              elim (h.open_ones c (λ z. o (file-close_all px r.node.fd_map w.kernel c ∙ rw e z))) [
                | inr other ↦ inr other
                | inl held ↦ inl (
                    sequence_holds w v c p s m found refl refl
                      (λ i x f has. left c i x r s here (ok.sequences) e f has) held)
              ]
        ];
      }
    where
      left :
          (c i : ℕ) (x r : RunningSequence) (s : SequenceNode)
          → lookup inst s.sequences ≡ some r
          → IsMap s.sequences
          → lookup c r.node.fd_map ≡ none
          → lookup i s.sequences ≡ some x
          → Has c x.node.fd_map
          → (j : ℕ) × (t : RunningSequence) × (lookup j (erase inst s.sequences) ≡ some t)
            × Has c t.node.fd_map
      left c i x r s here is_map none_there f (fd, e) = elim (Bool-cases (inst == i)) [
        | inr other ↦ (i, x, lookup-erase inst i 0 s.sequences is_map ∙ rw other f, (fd, e))
        | inl same ↦
            let x_is : x ≡ r = ground (arith, here, f) in
            let there : lookup c r.node.fd_map ≡ some fd =
              subst (λ (x : RunningSequence). lookup c x.node.fd_map ≡ some fd) x_is e in
            absurd (cc)
      ]

  pub erases_running-Accounted :
      (p inst : ℕ) (w : World K) → I w → Post I (erase_running os rounds p inst w)
  unfolding erase_running the_running
  erases_running-Accounted p inst w h =
      Post-deref_deref I (λ v. sequence_of (v.derived p)) (λ s v. lookup inst s.sequences) _ w
        λ s r e f.
          Post-deref I (λ v. sequence_of (v.derived p)) _ w
            λ s' e'.
              let both : some s ≡ some s' = sym e ∙ e' in
              let same : s ≡ s' = cc in
              erased p inst s' r w e' (subst (λ s. lookup inst s.sequences ≡ some r) same f) h
