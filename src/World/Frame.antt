-- ===== src/World/Frame.antt =====
-- What a method leaves alone in the world.
use arclaunch.Prelude.{ℕ, ◌≡◌, ◌≢◌}
use arclaunch.Node.{CompletionHandler}
use arclaunch.Node.Instances.{add_instance_completion_handler}
use arclaunch.World.{World, set_base}

module _ {K : Type 0} where
  -- `v` is `w` but for what the derived class keeps at `p`.
  pub record OnlyAt (p : ℕ) (w v : World K) : Type 0 where
    pub base : (q : ℕ) → v.base q ≡ w.base q
    pub kernel : v.kernel ≡ w.kernel
    pub running_nodes : v.running_nodes ≡ w.running_nodes
    pub calls : v.calls ≡ w.calls
    pub others : (q : ℕ) → q ≢ p → v.derived q ≡ w.derived q

  abbrev pub handed : ℕ → CompletionHandler → World K → World K
  handed n h w = set_base n (add_instance_completion_handler h (w.base n)) w
