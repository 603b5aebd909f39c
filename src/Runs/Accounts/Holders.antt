-- ===== src/Runs/Accounts/Holders.antt =====
-- Who holds a descriptor after an assignment.
use arclaunch.Prelude.{
  ℕ, ◌≡◌, refl, ap, sym, ◌∙◌, subst, none, some, inl, inr, arith, ◌==◌, Bool-cases, false, Option,
}
use arclaunch.Prelude.Map.{Map, lookup, insert, lookup-insert}
use arclaunch.Node.{Node}
use arclaunch.World.{World, SequenceNode, RunningSequence, Derived, sequence_node, sequence_of, at}
use arclaunch.Runs.Accounts.{Has, Held, by_node, by_sequence}

-- One running sequence is replaced by one that holds as much.
pub replaced :
    (c inst : ℕ) (r t : RunningSequence) (m : Map RunningSequence)
    → lookup inst m ≡ some r
    → (Has c r.node.fd_map → Has c t.node.fd_map)
    → (i : ℕ) (x : RunningSequence) → lookup i m ≡ some x
    → Has c x.node.fd_map
    → (j : ℕ) × (y : RunningSequence) × (lookup j (insert inst t m) ≡ some y) × Has c y.node.fd_map
replaced c inst r t m here keep i x e h = elim (Bool-cases (inst == i)) [
  | inr other ↦ (i, x, lookup-insert inst t m i ∙ rw other e, h)
  | inl same ↦
      let x_is : x ≡ r = ground (arith, e, here) in
      (
        i,
        t,
        lookup-insert inst t m i ∙ rw same refl,
        keep (subst (λ (x : RunningSequence). Has c x.node.fd_map) x_is h),
      )
]

module _ {K : Type 0} where
  -- The nodes keep what they hold, and the derived classes are as they were.
  pub nodes_hold :
      (w v : World K) (c : ℕ)
      → ((p : ℕ) → Has c (w.base p).fd_map → Has c (v.base p).fd_map)
      → v.derived ≡ w.derived
      → Held w c
      → Held v c
  nodes_hold w v c keep same (by_node p h) = by_node p (keep p h)
  nodes_hold w v c keep same (by_sequence p inst s r e f h) =
      by_sequence p inst s r (ap (λ (d : ℕ → Option Derived). sequence_of (d p)) same ∙ e) f h

  -- A node that is no sequence changes what its class adds.
  pub other_class_holds :
      (w v : World K) (c p : ℕ) (d : Derived)
      → sequence_of (w.derived p) ≡ none
      → v.base ≡ w.base
      → v.derived ≡ at w.derived p (some d)
      → Held w c
      → Held v c
  other_class_holds w v c p d no_sequence base derived (by_node q h) =
      by_node q (subst (λ (b : ℕ → Node). Has c (b q).fd_map) (sym base) h)
  other_class_holds w v c p d no_sequence base derived (by_sequence q inst s r e f h) =
      let apart : (p == q) ≡ false = ground (arith, no_sequence, e) in
      let there : sequence_of (at w.derived p (some d) q) ≡ some s = rw apart e in
      by_sequence q inst s r (ap (λ (d : ℕ → Option Derived). sequence_of (d q)) derived ∙ there) f
        h

  -- The sequence node `p` keeps `s` but for its running sequences: the descriptor is held by one of
  -- them in the new map if it was held by one in the old map.
  pub sequence_holds :
      (w v : World K) (c p : ℕ) (s : SequenceNode) (m : Map RunningSequence)
      → sequence_of (w.derived p) ≡ some s
      → v.base ≡ w.base
      → v.derived ≡ at w.derived p (some (sequence_node (record s { sequences = m })))
      → ((inst : ℕ) (r : RunningSequence)
          → lookup inst s.sequences ≡ some r
          → Has c r.node.fd_map
          → (i : ℕ) × (t : RunningSequence) × (lookup i m ≡ some t) × Has c t.node.fd_map)
      → Held w c
      → Held v c
  sequence_holds w v c p s m found base derived keep (by_node q h) =
      by_node q (subst (λ (b : ℕ → Node). Has c (b q).fd_map) (sym base) h)
  sequence_holds w v c p s m found base derived keep (by_sequence q inst s' r e f h) =
      let of = λ (d : ℕ → Option Derived). sequence_of (d q) in
      elim (Bool-cases (p == q)) [
        | inr other ↦
            let there : sequence_of
                  (at w.derived p (some (sequence_node (record s { sequences = m }))) q)
                ≡ some s' =
              rw other e in
            by_sequence q inst s' r (ap of derived ∙ there) f h
        | inl same ↦
            let s_is : s' ≡ s = ground (arith, e, found) in
            let (i, t, g, has) =
              keep inst r (subst (λ s. lookup inst s.sequences ≡ some r) s_is f) h in
            let there : sequence_of
                  (at w.derived p (some (sequence_node (record s { sequences = m }))) q)
                ≡ some (record s { sequences = m }) =
              rw same refl in
            by_sequence q i (record s { sequences = m }) t (ap of derived ∙ there) g has
      ]
