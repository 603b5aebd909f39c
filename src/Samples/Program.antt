-- ===== src/Samples/Program.antt =====
-- A launch file with two programs, from main's `execute` to the end of `waitFor`.
use arclaunch.Prelude.{ℕ, List, [], ◌∷◌, Outcome, done, thrown, exited, undefined, no_fuel}
use arclaunch.Text.{codes}
use arclaunch.Element.{Element, executable, launch, nil, cons}
use arclaunch.Os.Table.{Table, table_os}
use arclaunch.Process.Wait.{Waited, ended}
use arclaunch.Context
use arclaunch.Context.{Site}
use arclaunch.Dispatch
use arclaunch.Launch
use arclaunch.Process
use arclaunch.Process.Wait
use arclaunch.Node.Instances
use arclaunch.Memory.{Memory}
use arclaunch.Build.Library.{fresh_site}
use arclaunch.Main.Nodes.{library_block}
use arclaunch.Samples.{kernel}
use arclaunch.Samples.Commands.{shell_script}
use arclaunch.Samples.Sockets.{network}

abbrev two_programs : Element
two_programs =
    launch (codes "l")
      (cons (executable (codes "a") (shell_script.interpreter))
        (cons (executable (codes "b") (shell_script.base)) nil))
      (record { from = codes "a"; to = codes "b"; from_fd = 1; to_fd = 0 } ∷ []) []

-- Each program ends with 0 as soon as it is waited for.
abbrev at_once : ℕ → ℕ → List Waited
at_once p inst = ended 0 ∷ []

abbrev site_of : Outcome (Site (Memory Table)) (Unit {0}) → Site (Memory Table)
site_of (done a s) = s
site_of (thrown e s) = s
site_of (exited c s) = s
site_of undefined = fresh_site kernel
site_of no_fuel = fresh_site kernel

abbrev last_site : Site (Memory Table)
last_site = site_of (library_block table_os 17 5 at_once network 2 two_programs (fresh_site kernel))
