-- ===== src/Samples/Descriptors.antt =====
-- Node/Fds at concrete nodes.
use arclaunch.Prelude.{ℕ, [], ◌∷◌, arith}
use arclaunch.Prelude.Map.{Map, lookup}
use arclaunch.Os.Table.{Table, table_os, table_posix}
use arclaunch.Node.Fds.{Local, link_fd, pass_fds, overwrite_fds}
use arclaunch.Node.Fds.Link.{Holds, LinksFd, link_fd-LinksFd}
use arclaunch.Node.Fds.Pass.{Passed, pass_fds-Passed}
use arclaunch.Node.Fds.Overwrite.{Overwritten, overwrite_fds-Overwritten}
use arclaunch.Sequence.{empty_node}
use arclaunch.Samples.{kernel}

-- A parent's descriptors: 4 is the input and 5 the output of its next instance.
abbrev linked_pair : Map ℕ
linked_pair = (4, 0) ∷ (5, 1) ∷ []

linked_pair-Holds : Holds table_posix linked_pair kernel
unfolding lookup
linked_pair-Holds = record { is_map = omega arith; entry = λ n fd e. ground arith }

nothing-Holds : Holds table_posix [] kernel
unfolding lookup
nothing-Holds = record { is_map = tt; entry = λ n fd e. cc }

abbrev parent_node : Local Table
parent_node = record { node = record empty_node { fd_map = linked_pair }; kernel = kernel }

abbrev child_node : Local Table
child_node = record { node = empty_node; kernel = kernel }

link_fd-LinksFd_example : LinksFd table_posix parent_node 1 4 (link_fd table_os 17 1 4 parent_node)
link_fd-LinksFd_example = link_fd-LinksFd table_posix 17 1 4 parent_node (omega arith)

pass_fds-Passed_example :
    Passed table_posix kernel linked_pair child_node (pass_fds table_os 17 linked_pair child_node)
pass_fds-Passed_example =
    pass_fds-Passed table_posix 17 linked_pair child_node (omega arith) linked_pair-Holds
      nothing-Holds

overwrite_fds-Overwritten_example :
    Overwritten table_posix kernel linked_pair (overwrite_fds table_os linked_pair kernel)
overwrite_fds-Overwritten_example =
    overwrite_fds-Overwritten table_posix linked_pair kernel linked_pair-Holds
