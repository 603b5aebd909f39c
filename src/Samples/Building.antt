-- ===== src/Samples/Building.antt =====
-- A launch file with a script, a sequence and a name that two members have, and one with a socket.
use arclaunch.Prelude.{ℕ, ◌≡◌, refl, false, some, [], ◌∷◌, done, suc}
use arclaunch.Text.{codes, text_eq, c_string}
use arclaunch.Element.{
  Element, Elements, executable, script, launch, sequence_node, socket_node, nil, cons,
}
use arclaunch.Command
use arclaunch.Command.{script_path}
use arclaunch.Os.Table.{Table}
use arclaunch.Context.{Site, execute}
use arclaunch.Memory.{Memory}
use arclaunch.Build.{construct}
use arclaunch.Build.Trees.{IsValid, Built}
use arclaunch.Build.Kept.{IsStore, Grows}
use arclaunch.Build.Library.{fresh_site, fresh_site-IsStore, execute-Built}
use arclaunch.Samples.{kernel}
use arclaunch.Samples.Commands.{shell_script}
use arclaunch.Samples.Sockets.{network}

abbrev twice : Elements
twice =
    cons (executable (codes "a") (shell_script.interpreter))
      (cons (executable (codes "a") (shell_script.base)) nil)

abbrev launch_file : Element
launch_file =
    launch (codes "l")
      (cons (script (codes "s") shell_script) (cons (sequence_node (codes "q") twice false) nil))
      (record { from = codes "s"; to = codes "q"; from_fd = 1; to_fd = 0 } ∷ []) []

abbrev service_file : Element
service_file =
    socket_node (codes "service") (cons launch_file twice) [] []
      (record { from = codes "socket"; to = codes "a"; from_fd = 0; to_fd = 0 } ∷ [])
      (some (codes "80")) (codes "localhost")

launch_file-IsValid : (depth : ℕ) → IsValid network (suc (suc (suc depth))) launch_file
unfolding IsValid script_path text_eq c_string Command.script_node
launch_file-IsValid depth = ((_, refl), ((tt, (tt, tt)), tt))

service_file-IsValid : IsValid network 4 service_file
unfolding IsValid script_path text_eq c_string Command.script_node
service_file-IsValid = ((launch_file-IsValid 0, (tt, (tt, tt))), (_, refl))

execute-Built_example :
    (t : Site (Memory Table)) × (execute (construct network 4) service_file (fresh_site kernel)
      ≡ done 0 t)
    × Built t.world.next t.world.world 0 service_file
    × Grows (fresh_site kernel).world t.world
    × IsStore t.world
execute-Built_example =
    execute-Built network 4 service_file (fresh_site kernel) refl service_file-IsValid
      (fresh_site-IsStore kernel)
