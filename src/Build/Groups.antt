-- ===== src/Build/Groups.antt =====
-- The constructor of each class, when the members of the group have been made.
use arclaunch.Prelude.{
  ℕ, suc, ◌≡◌, refl, ◌∙◌, Bool, false, Option, none, some, List, [], arith, done, bind-done, ◌>>=◌,
}
use arclaunch.Text.{Text}
use arclaunch.NameMap.{find_name}
use arclaunch.Element.{Element, Elements, Linkage, Externalize, launch, sequence_node, socket_node}
use arclaunch.Command
use arclaunch.World.{SocketNode, at, set_derived}
use arclaunch.Context.{
  NodeStorage, launch_node, sequence, socket, Site, execute, sequence_order, context,
}
use arclaunch.Context.Classes.{class_of}
use arclaunch.Socket
use arclaunch.Os.{Net}
use arclaunch.Memory.{Memory, on_world, idle_program, idle_launch, idle_sequence}
use arclaunch.Build.{make, make_launch, make_sequence, construct}
use arclaunch.Build.Trees.{HasNoSocket, Built, stays_all}
use arclaunch.Build.Kept.{
  IsStore, with_derived, with_socket, idle_program-IsIdle, idle_launch-IsIdle, idle_sequence-IsIdle,
}
use arclaunch.Build.Places.{
  newed, placed, newed-Left, empty_place, placed-Left, placed_here, socketed-Left,
  socketed-KeepsBelow, socket_here,
}
use arclaunch.Build.Names.{placed-Named}
use arclaunch.Build.Found.{Result, Members, finishes}

module _ {K : Type 0} (net : Net K) where
  pub launch_made :
      (depth : ℕ) (name : Text) (es : Elements) (links : List Linkage)
      (externals : List Externalize) (s : Site (Memory K))
      → s.context.storages ≡ context.storages
      → IsStore s.world
      → Members net depth es [] (newed s)
      → Result net (suc depth) (launch name es links externals) s
  unfolding make make_launch class_of Built HasNoSocket find_name
  launch_made depth name es links externals s reg h (m, u, run, l, names) =
      let d = idle_launch m links externals in
      finishes net depth (launch name es links externals) s (placed s.world.next d u) launch_node
        reg refl (rw (run, ◌>>=◌)) (placed-Left s u d h (idle_launch-IsIdle m links externals) l)
        (
          (empty_place s u h l).0,
          m,
          placed_here s.world.next d u,
          placed-Named s u d m es h l names,
        )

  pub sequence_made :
      (depth : ℕ) (name : Text) (es : Elements) (repeats : Bool) (s : Site (Memory K))
      → s.context.storages ≡ context.storages
      → IsStore s.world
      → Members net depth es [] (newed s)
      → Result net (suc depth) (sequence_node name es repeats) s
  unfolding make make_sequence class_of Built HasNoSocket find_name
  sequence_made depth name es repeats s reg h (m, u, run, l, names) =
      let d = idle_sequence m (sequence_order es) in
      finishes net depth (sequence_node name es repeats) s (placed s.world.next d u) sequence reg
        refl (rw (run, ◌>>=◌)) (placed-Left s u d h (idle_sequence-IsIdle m (sequence_order es)) l)
        (
          (empty_place s u h l).0,
          m,
          placed_here s.world.next d u,
          placed-Named s u d m es h l names,
        )

  pub program_made :
      (depth : ℕ) (e : Element) (c : NodeStorage) (command : Command.ExecutableNode)
      (s : Site (Memory K))
      → s.context.storages ≡ context.storages
      → IsStore s.world
      → class_of e ≡ some c
      → make net (execute (construct net depth)) c s.world.next e (newed s)
        ≡ done tt (placed s.world.next (idle_program command) (newed s))
      → Built
          (suc s.world.next)
          (set_derived s.world.next (idle_program command) (newed s).world.world)
          s.world.next
          e
      → Result net (suc depth) e s
  program_made depth e c command s reg h is run b =
      finishes net depth e s (placed s.world.next (idle_program command) (newed s)) c reg is run
        (placed-Left s (newed s) (idle_program command) h (idle_program-IsIdle command)
          (newed-Left (HasNoSocket e) s h))
        b

  pub socket_made :
      (depth : ℕ) (name : Text) (es : Elements) (links : List Linkage)
      (externals : List Externalize) (sockets : List Linkage) (service : Option Text)
      (address : Text) (res : List ℕ) (s : Site (Memory K))
      → s.context.storages ≡ context.storages
      → net.getaddrinfo address service ≡ some res
      → IsStore s.world
      → Members net depth es [] (newed s)
      → Result net (suc depth) (socket_node name es links externals sockets service address) s
  unfolding make make_launch class_of Built HasNoSocket find_name Socket.socket_node
  socket_made depth name es links externals sockets service address res s reg found h
        (m, u, run, l, names) =
      let d = idle_launch m links externals in
      let p = s.world.next in
      let v = set_derived p d u.world.world in
      let (lt, empty, no_socket) = empty_place s u h l in
      let x : SocketNode = record {
        fds = [];
        maxfd = 0;
        seq = sockets;
        res = res;
        keep = false;
        acc_thread = false;
        acc_inst = none;
      } in
      finishes net depth (socket_node name es links externals sockets service address) s
        (record u { world = with_socket p x (with_derived p d u.world) }) socket reg refl
        (bind-done (make_launch (execute (construct net depth)) p es links externals)
            (λ a. on_world (Socket.socket_node net p sockets service address)) {a = tt}
            {s = newed s} {t = placed p d u} (rw (run, ◌>>=◌))
          ∙ rw (found, Socket.socket_node, on_world))
        (socketed-Left s (placed p d u) x lt
          (placed-Left s u d h (idle_launch-IsIdle m links externals) l))
        (
          lt,
          m,
          x,
          placed_here p d u,
          socket_here p x v,
          refl,
          refl,
          λ k.
              stays_all v (record v { sockets = at v.sockets p (some x) }) (omega arith)
                (socketed-KeepsBelow u.world.next p v x no_socket) k (find_name k m) es
                (placed-Named s u d m es h l names k),
        )
