-- ===== src/Launch/Waiting.antt =====
-- Access to a LaunchInstance that waits for its sub-nodes.
use arclaunch.Prelude.{Exec, ℕ, ◌≡◌, refl, true, false, ◌∙◌, some, done, arith}
use arclaunch.Prelude.Map.{Map, insert, erase, lookup-insert, lookup-erase, insert-From}
use arclaunch.Launch.{the_instance, put_instance, erase_instance, is_empty, on_sub_node_death}
use arclaunch.Launch.Deaths.{Waits, Ended}
use arclaunch.World.Frame.{OnlyAt}
use arclaunch.World.{World, LaunchNode, LaunchInstance, launch, at}

abbrev pub instance_of : ℕ → ℕ → Map ℕ → LaunchInstance
instance_of p i m = record { owner = p; inst_num = i; node_instances = m }

module _ {K : Type 0} where
  pub the_instance_lem :
      (w : World K) (p i : ℕ) (m : Map ℕ)
      → Waits w p i m
      → the_instance p i w ≡ done (instance_of p i m) w
  unfolding the_instance
  the_instance_lem w p i m h = ground (arith, h.derived, h.found)

  pub put_instance-Waits :
      (w : World K) (p i : ℕ) (m m' : Map ℕ)
      → Waits w p i m
      → (v : World K) × (put_instance p i (instance_of p i m') w ≡ done tt v)
        × Waits v p i m'
        × OnlyAt p w v
  unfolding put_instance
  put_instance-Waits w p i m m' h = (
    record w { derived = at w.derived p (some (launch l)) },
    ground (arith, h.derived),
    record {
      node = l;
      derived = ground arith;
      is_map = insert-From i 0 (instance_of p i m') h.node.instances (omega arith) h.is_map;
      found = ground (arith, lookup-insert i (instance_of p i m') h.node.instances i);
    },
    record {
      base = λ q. refl;
      kernel = refl;
      running_nodes = refl;
      calls = refl;
      others = λ q ne. ground arith;
    },
  )
    where
      l : LaunchNode
      l = record h.node { instances = insert i (instance_of p i m') h.node.instances }

  pub erase_instance-Ended :
      (w : World K) (p i : ℕ) (m : Map ℕ)
      → Waits w p i m
      → (v : World K) × (erase_instance p i w ≡ done tt v) × Ended v p i × OnlyAt p w v
  unfolding erase_instance
  erase_instance-Ended w p i m h = (
    record w { derived = at w.derived p (some (launch l)) },
    ground (arith, h.derived),
    record {
      node = l;
      derived = ground arith;
      gone = ground (arith, lookup-erase i i 0 h.node.instances h.is_map);
    },
    record {
      base = λ q. refl;
      kernel = refl;
      running_nodes = refl;
      calls = refl;
      others = λ q ne. ground arith;
    },
  )
    where
      l : LaunchNode
      l = record h.node { instances = erase i h.node.instances }

  module _ (finish : ℕ → ℕ → ℕ → Exec (World K) (Unit {0})) where
    -- An end that is not the last one.
    pub death_left :
        (w : World K) (p i retval sub sub_inst : ℕ) (m : Map ℕ)
        → Waits w p i m
        → is_empty (erase sub m) ≡ false
        → (v : World K) × (on_sub_node_death finish p i retval sub sub_inst w ≡ done tt v)
          × Waits v p i (erase sub m)
          × OnlyAt p w v
    unfolding on_sub_node_death
    death_left w p i retval sub sub_inst m h left =
        let (v, e, waits, o) = put_instance-Waits w p i m (erase sub m) h in
        (v, ground (arith, the_instance_lem w p i m h, e, left), waits, o)

    -- The last end: what is left to do once the instance is finished.
    pub death_last :
        (w : World K) (p i retval sub sub_inst : ℕ) (m : Map ℕ)
        → Waits w p i m
        → is_empty (erase sub m) ≡ true
        → (u : World K) × Waits u p i (erase sub m)
          × OnlyAt p w u
          × ((s : World K)
              → finish p i 0 u ≡ done tt s
              → s.derived p ≡ u.derived p
              → (v : World K) × (on_sub_node_death finish p i retval sub sub_inst w ≡ done tt v)
                × Ended v p i
                × OnlyAt p s v)
    unfolding on_sub_node_death
    death_last w p i retval sub sub_inst m h last =
        let (u, e, waits, o) = put_instance-Waits w p i m (erase sub m) h in
        (
          u,
          waits,
          o,
          λ s finished kept.
              let waits' : Waits s p i (erase sub m) = record {
                node = waits.node;
                derived = kept ∙ waits.derived;
                is_map = waits.is_map;
                found = waits.found;
              } in
              let (v, e', ended, o') = erase_instance-Ended s p i (erase sub m) waits' in
              (
                v,
                ground (
                  arith,
                  the_instance_lem w p i m h,
                  e,
                  last,
                  finished,
                  the_instance_lem s p i (erase sub m) waits',
                  e',
                ),
                ended,
                o',
              ),
        )
