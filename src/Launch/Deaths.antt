-- ===== src/Launch/Deaths.antt =====
-- The end of a LaunchNode's instance: its sub-nodes end one by one, in any order.
use arclaunch.Prelude.{
  ℕ, ◌≡◌, refl, ◌≢◌, inl, inr, true, false, none, some, List, [], ◌∷◌, ◌++◌, Exec, done, ◌>>◌, pure,
  arith, ◌==◌, Bool-cases, Option-cases, ◌∙◌,
}
use arclaunch.Prelude.Map.{
  Map, IsMap, lookup, insert, erase, lookup-insert, lookup-erase, insert-From, erase-From,
}
use arclaunch.Launch.{is_empty, on_sub_node_death}
use arclaunch.Node.Instances.Finish.{call_of}
use arclaunch.World.{World, LaunchNode, LaunchInstance, launch, at}

module _ {K : Type 0} where
  -- The instance `i` of the launch node `p` waits for the nodes of `m`.
  pub record Waits (w : World K) (p i : ℕ) (m : Map ℕ) : Type 0 where
    pub node : LaunchNode
    pub derived : w.derived p ≡ some (launch node)
    pub is_map : IsMap node.instances
    pub found :
        lookup i node.instances ≡ some (record { owner = p; inst_num = i; node_instances = m })

  -- The instance is gone.
  pub record Ended (w : World K) (p i : ℕ) : Type 0 where
    pub node : LaunchNode
    pub derived : w.derived p ≡ some (launch node)
    pub gone : lookup i node.instances ≡ none

  -- What `finishInstance` of the launch node does, for an owner that only notes it.
  abbrev pub Reports : (ℕ → ℕ → ℕ → Exec (World K) (Unit {0})) → Type 0
  Reports finish =
      (p i retval : ℕ) (w : World K)
      → finish p i retval w ≡ done tt (record w { calls = w.calls ++ call_of retval p i 0 ∷ [] })

  module _ (finish : ℕ → ℕ → ℕ → Exec (World K) (Unit {0})) where
    death-Waits :
        (w : World K) (p i retval sub sub_inst : ℕ) (m : Map ℕ)
        → Waits w p i m
        → is_empty (erase sub m) ≡ false
        → (v : World K) × (on_sub_node_death finish p i retval sub sub_inst w ≡ done tt v)
          × Waits v p i (erase sub m)
          × (v.calls ≡ w.calls)
    unfolding on_sub_node_death
    death-Waits w p i retval sub sub_inst m h e = (
      v,
      ground (arith, h.found, h.derived),
      record {
        node = l;
        derived = ground arith;
        is_map = insert-From i 0 x h.node.instances (omega arith) h.is_map;
        found = ground (arith, lookup-insert i x h.node.instances i);
      },
      refl,
    )
      where
        x : LaunchInstance
        x = record { owner = p; inst_num = i; node_instances = erase sub m }

        l : LaunchNode
        l = record h.node { instances = insert i x h.node.instances }

        v : World K
        v = record w { derived = at w.derived p (some (launch l)) }

    death_ends :
        (w : World K) (p i retval sub sub_inst : ℕ) (m : Map ℕ)
        → Reports finish
        → Waits w p i m
        → is_empty (erase sub m) ≡ true
        → (v : World K) × (on_sub_node_death finish p i retval sub sub_inst w ≡ done tt v)
          × Ended v p i
          × (v.calls ≡ w.calls ++ call_of 0 p i 0 ∷ [])
    unfolding on_sub_node_death
    death_ends w p i retval sub sub_inst m report h e = (
      v,
      ground (arith, h.found, h.derived, report p i 0 u, lookup-insert i x h.node.instances i),
      record {
        node = l;
        derived = ground arith;
        gone = ground (
          arith,
          lookup-erase i i 0 (insert i x h.node.instances)
              (insert-From i 0 x h.node.instances (omega arith) h.is_map),
        );
      },
      refl,
    )
      where
        x : LaunchInstance
        x = record { owner = p; inst_num = i; node_instances = erase sub m }

        k : LaunchNode
        k = record h.node { instances = insert i x h.node.instances }

        u : World K
        u = record w { derived = at w.derived p (some (launch k)) }

        l : LaunchNode
        l = record h.node { instances = erase i (insert i x h.node.instances) }

        v : World K
        v = record w {
          derived = at u.derived p (some (launch l));
          calls = w.calls ++ call_of 0 p i 0 ∷ [];
        }

    -- The sub-nodes end in the order of the list, each with its return value and its instance.
    pub die_all : ℕ → ℕ → List (ℕ × ℕ × ℕ) → Exec (World K) (Unit {0})
    die_all p i [] = pure tt
    die_all p i ((sub, retval, sub_inst) ∷ ds) = do
      on_sub_node_death finish p i retval sub sub_inst
      die_all p i ds

    -- `k` is not among those that end.
    abbrev pub Spares : ℕ → List (ℕ × ℕ × ℕ) → Type 0
    Spares k [] = Unit {0}
    Spares k ((sub, retval, sub_inst) ∷ ds) = (sub ≢ k) × Spares k ds

    not_empty : (k : ℕ) (m : Map ℕ) → lookup k m ≢ none → is_empty m ≡ false
    unfolding lookup is_empty
    not_empty k [] h = absurd (h refl)
    not_empty k (e ∷ m) h = refl

    left_over :
        (k sub : ℕ) (m : Map ℕ)
        → IsMap m
        → sub ≢ k
        → lookup k m ≢ none
        → lookup k (erase sub m) ≢ none
    left_over k sub m asc ne h e = h (ground (arith, lookup-erase sub k 0 m asc))

    -- As long as a sub-node `k` is left, the instance of the launch node goes on and nothing is
    -- reported, whatever the other sub-nodes returned.
    pub die_all-Waits :
        (w : World K) (p i k : ℕ) (m : Map ℕ) (ds : List (ℕ × ℕ × ℕ))
        → IsMap m
        → Waits w p i m
        → lookup k m ≢ none
        → Spares k ds
        → (v : World K) × (rest : Map ℕ) × (die_all p i ds w ≡ done tt v)
          × Waits v p i rest
          × (lookup k rest ≢ none)
          × (v.calls ≡ w.calls)
    unfolding die_all
    die_all-Waits w p i k m [] asc h left spared = (w, m, refl, h, left, refl)
    die_all-Waits w p i k m ((sub, retval, sub_inst) ∷ ds) asc h left spared =
        let left' = left_over k sub m asc spared.0 left in
        let (u, e, h', c) =
          death-Waits w p i retval sub sub_inst m h (not_empty k (erase sub m) left') in
        let (v, rest, e', h'', l, c') =
          die_all-Waits u p i k (erase sub m) ds (erase-From sub 0 m asc) h' left' spared.1 in
        (v, rest, ground (arith, e, e'), h'', l, c' ∙ c)

    -- Every sub-node but `k` is among those that end.
    abbrev pub LeavesOnly : ℕ → List (ℕ × ℕ × ℕ) → Map ℕ → Type 0
    LeavesOnly k ds m = (j : ℕ) → lookup j m ≢ none → j ≢ k → ¬ Spares j ds

    all_gone : (m : Map ℕ) → ((j : ℕ) → lookup j m ≡ none) → is_empty m ≡ true
    unfolding lookup is_empty
    all_gone [] h = refl
    all_gone ((j, v) ∷ m) h = ground (arith, h j)

    only_left : (k : ℕ) (m : Map ℕ) → IsMap m → LeavesOnly k [] m → is_empty (erase k m) ≡ true
    only_left k m asc h = all_gone (erase k m) λ j. elim (Option-cases (lookup j m)) [
      | inl e ↦ ground (arith, lookup-erase k j 0 m asc)
      | inr (v, e) ↦ elim (Bool-cases (j == k)) [
        | inl same ↦ ground (arith, lookup-erase k j 0 m asc)
        | inr other ↦ absurd (h j (λ n. cc) (ground arith) tt)
      ]
    ]

    -- When all sub-nodes have ended, `k` as the last and the others in any order, the instance of
    -- the launch node has ended, and its end was reported exactly once, with the return value 0
    -- whatever the sub-nodes returned.
    pub die_all-Ended :
        (w : World K) (p i k retval sub_inst : ℕ) (m : Map ℕ) (ds : List (ℕ × ℕ × ℕ))
        → Reports finish
        → IsMap m
        → Waits w p i m
        → lookup k m ≢ none
        → Spares k ds
        → LeavesOnly k ds m
        → (v : World K) × (die_all p i (ds ++ (k, retval, sub_inst) ∷ []) w ≡ done tt v)
          × Ended v p i
          × (v.calls ≡ w.calls ++ call_of 0 p i 0 ∷ [])
    unfolding die_all
    die_all-Ended w p i k retval sub_inst m [] report asc h left spared only =
        let (v, e, ended, c) =
          death_ends w p i retval k sub_inst m report h (only_left k m asc only) in
        (v, ground (arith, e), ended, c)
    die_all-Ended w p i k retval sub_inst m ((sub, r, s) ∷ ds) report asc h left spared only =
        let left' = left_over k sub m asc spared.0 left in
        let (u, e, h', c) = death-Waits w p i r sub s m h (not_empty k (erase sub m) left') in
        let (v, e', ended, c') =
          die_all-Ended u p i k retval sub_inst (erase sub m) ds report (erase-From sub 0 m asc) h'
            left' spared.1 fewer in
        (v, ground (arith, e, e'), ended, rw c at c')
      where
        fewer : LeavesOnly k ds (erase sub m)
        fewer j there ne spares = elim (Bool-cases (sub == j)) [
          | inl same ↦ there (ground (arith, lookup-erase sub j 0 m asc))
          | inr other ↦
              only j (λ n. there (ground (arith, lookup-erase sub j 0 m asc))) ne
                (ground arith, spares)
        ]
