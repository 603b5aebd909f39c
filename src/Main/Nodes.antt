-- ===== src/Main/Nodes.antt =====
-- The `try` block of src/main.cxx on the nodes of the library, without --persist: execute on the
-- element that the parser yields, startup and waitFor.
use arclaunch.Prelude.{ℕ, List, Exec, ◌>>=◌, ◌>>◌}
use arclaunch.Prelude.Map.{Map}
use arclaunch.Element.{Element}
use arclaunch.Os.{Os}
use arclaunch.Node.Instances.{wait_for}
use arclaunch.World.{World}
use arclaunch.Process.Wait.{Waited}
use arclaunch.Dispatch
use arclaunch.Context.{Site, execute}
use arclaunch.Os.{Net}
use arclaunch.Memory.{Memory, on_world}
use arclaunch.Build.{construct}

module _ {K : Type 0} (os : Os K) (rounds levels : ℕ) (answers : ℕ → ℕ → List Waited) where
  unfoldable pub run_nodes : ℕ → Exec (World K) (Unit {0})
  run_nodes p = do
    Dispatch.startup os rounds levels p
    wait_for (Dispatch.wait_for_instance os rounds answers levels) rounds p

  unfoldable pub library_block : Net K → ℕ → Element → Exec (Site (Memory K)) (Unit {0})
  unfolding run_nodes construct execute
  library_block net depth elem = do
    node ← execute (construct net depth) elem
    on_world (run_nodes node)
