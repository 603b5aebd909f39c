-- ===== src/Samples/Sockets.antt =====
-- A socket node with two addresses, and the end of a node's instances.
use arclaunch.Prelude.{◌+◌, ◌≡◌, false, some, none, [], ◌∷◌, ◌==◌}
use arclaunch.Text.{codes}
use arclaunch.Os.Table.{Table, table_os}
use arclaunch.Os.{Os, Net}
use arclaunch.Socket.{accept_fds}
use arclaunch.Socket.Accept.{accept_all, accept_fds-accept_all}
use arclaunch.Dispatch
use arclaunch.World.{World, SocketNode}
use arclaunch.Samples.{pair}

-- The socket of the address `a` is 10 + a, and every connection is 20.
abbrev pub network : Net Table
network = record {
  socket = λ k a. (some (10 + a), k);
  bind = λ k fd a. k;
  listen = λ k fd n. k;
  accept4 = λ k fd. (some 20, k);
  getaddrinfo = λ address service. some (0 ∷ 1 ∷ []);
}

abbrev fresh_socket : SocketNode
fresh_socket = record {
  fds = [];
  maxfd = 0;
  seq = record { from = codes "socket"; to = codes "a"; from_fd = 0; to_fd = 0 } ∷ [];
  res = 0 ∷ 1 ∷ [];
  keep = false;
  acc_thread = false;
  acc_inst = none;
}

abbrev listening : World Table
listening = record pair { sockets = λ p. some fresh_socket }

-- The kernel of the samples with these sockets.
abbrev network_os : Os Table
network_os = record table_os { net = network }

accept_fds-accept_all_example :
    accept_fds table_os network 17
      (Dispatch.startup table_os 17 5)
      0
      (λ fd. fd == 11)
      (some 1)
      (some 10 ∷ some 11 ∷ [])
      listening
    ≡ accept_all table_os network 17 (Dispatch.startup table_os 17 5) 0 (11 ∷ []) listening
accept_fds-accept_all_example =
    accept_fds-accept_all table_os network 17 (Dispatch.startup table_os 17 5) 0 (λ fd. fd == 11)
      (10 ∷ 11 ∷ []) listening
