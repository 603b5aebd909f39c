-- ===== src/Build/Library.antt =====
-- The nodes of a launch file, made in an empty memory.
use arclaunch.Prelude.{ℕ, ◌≡◌, refl, none, [], done, false}
use arclaunch.Prelude.Map.{lookup}
use arclaunch.Element.{Element}
use arclaunch.Sequence.{empty_node}
use arclaunch.World.{World}
use arclaunch.Context.{Site, context, execute}
use arclaunch.Os.{Net}
use arclaunch.Memory.{Memory}
use arclaunch.Build.{construct}
use arclaunch.Build.Trees.{IsValid, Built}
use arclaunch.Build.Kept.{IsStore, Grows}
use arclaunch.Build.Made.{made}
use arclaunch.Runs.WellFormed.{IsWellFormed}

module _ {K : Type 0} where
  -- Before the first node is made.
  abbrev pub empty_world : K → World K
  empty_world k = record {
    kernel = k;
    base = λ p. empty_node;
    derived = λ p. none;
    sockets = λ p. none;
    reaping = false;
    running_nodes = [];
    calls = [];
  }

  abbrev pub fresh_site : K → Site (Memory K)
  fresh_site k = record { context = context; world = record { world = empty_world k; next = 0 } }

  empty_world-IsWellFormed : (k : K) → IsWellFormed (empty_world k)
  unfolding lookup
  empty_world-IsWellFormed k = record {
    instances = λ p. tt;
    fd_maps = λ p. tt;
    running_nodes = tt;
    processes = λ p x e. absurd (cc);
    launches = λ p l e. absurd (cc);
    sequences = λ p s e. absurd (cc);
    registered = λ pid n e. absurd (cc);
  }

  pub fresh_site-IsStore : (k : K) → IsStore (fresh_site k).world
  fresh_site-IsStore k = record {
    well_formed = empty_world-IsWellFormed k;
    unused = λ q le. refl;
    unused_sockets = λ q le. refl;
  }

  module _ (net : Net K) where
    -- In the context of the library, `execute` returns a node for every element whose parts can all
    -- be made, if the elements nest less deep than the depth. The node and those under it are as the
    -- element says: each of its class, with the command, the links and the order of its element, and
    -- in each group a name leads to the node of the last member that has it; none of them has run.
    -- The objects that were there stay as they are, and the state stays well-formed.
    pub execute-Built :
        (depth : ℕ) (e : Element) (s : Site (Memory K))
        → s.context.storages ≡ context.storages
        → IsValid net depth e
        → IsStore s.world
        → (t : Site (Memory K)) × (execute (construct net depth) e s ≡ done s.world.next t)
          × Built t.world.next t.world.world s.world.next e
          × Grows s.world t.world
          × IsStore t.world
    execute-Built depth e s reg v h =
        let (t, run, l, b) = made net depth e s reg v h in (t, run, b, l.grows, l.store)
