-- ===== src/Dispatch/Service.antt =====
-- The start of a socket node, SocketNode::startInstance as the virtual method that Node::startup
-- calls.
use arclaunch.Prelude.{ℕ, ◌≡◌, true, some, length, All}
use arclaunch.Os.{Os}
use arclaunch.World.{World, SocketNode}
use arclaunch.Socket
use arclaunch.Socket.Listen.{IsWatched}
use arclaunch.Dispatch

module _ {K : Type 0} (os : Os K) (rounds : ℕ) where
  -- The node accepts for the instance.
  pub record Accepts (p inst count : ℕ) (w : World K) (t : SocketNode) (u : World K) : Type 0 where
    pub socket : u.sockets p ≡ some t
    pub keep : t.keep ≡ true
    pub acc_thread : t.acc_thread ≡ true
    pub acc_inst : t.acc_inst ≡ some inst
    pub watched : All (IsWatched t.maxfd) t.fds
    pub count_fds : length t.fds ≡ count
    pub derived : u.derived ≡ w.derived
    pub running_nodes : u.running_nodes ≡ w.running_nodes
