-- ===== src/Build/Places.antt =====
-- The place of a new node: what stands there before and after its constructor has written it.
use arclaunch.Prelude.{ℕ, ◌≡◌, ◌<◌, refl, ◌∙◌, none, some, [], ◌∷◌, ◌++◌, arith}
use arclaunch.World.{World, Derived, SocketNode, at, set_derived}
use arclaunch.Context.{Site}
use arclaunch.Memory.{Memory}
use arclaunch.Build.Trees.{KeepsBelow}
use arclaunch.Build.Kept.{
  IsStore, Grows, IsIdle, Grows-refl, Grows-trans, with_new, with_new-Grows, with_new-IsStore,
  with_derived, with_derived-Grows, with_derived-IsStore, with_socket, with_socket-Grows,
  with_socket-IsStore,
}

module _ {K : Type 0} where
  -- What `execute` does to the context when a node is made.
  abbrev pub stored : ℕ → Site (Memory K) → Site (Memory K)
  stored p t = record t { context = record t.context { nodes = t.context.nodes ++ p ∷ [] } }

  abbrev pub newed : Site (Memory K) → Site (Memory K)
  newed s = record s { world = with_new s.world }

  abbrev pub placed : ℕ → Derived → Site (Memory K) → Site (Memory K)
  placed p d s = record s { world = with_derived p d s.world }

  -- What has been done between two sites; no socket node was made if `P` holds.
  pub record Left (P : Type 0) (s t : Site (Memory K)) : Type 0 where
    pub storages : t.context.storages ≡ s.context.storages
    pub store : IsStore t.world
    pub grows : Grows s.world t.world
    pub sockets : P → t.world.world.sockets ≡ s.world.world.sockets

  pub newed-Left : (P : Type 0) (s : Site (Memory K)) → IsStore s.world → Left P (newed s) (newed s)
  newed-Left P s h = record {
    storages = refl;
    store = with_new-IsStore s.world h;
    grows = Grows-refl (with_new s.world);
    sockets = λ n. refl;
  }

  -- The members leave the place of their group empty.
  pub empty_place :
      {P : Type 0} (s u : Site (Memory K))
      → IsStore s.world
      → Left P (newed s) u
      → (s.world.next < u.world.next)
        × (u.world.world.derived s.world.next ≡ none)
        × (u.world.world.sockets s.world.next ≡ none)
  empty_place s u h l =
      let more = l.grows.more in
      (
        omega (arith, more),
        l.grows.below.derived s.world.next (omega arith) ∙ h.unused s.world.next (omega arith),
        l.grows.below.sockets s.world.next (omega arith)
            ∙ h.unused_sockets s.world.next (omega arith),
      )

  pub placed-Left :
      {P : Type 0} (s u : Site (Memory K)) (d : Derived)
      → IsStore s.world
      → IsIdle d
      → Left P (newed s) u
      → Left P s (placed s.world.next d u)
  placed-Left s u d h i l =
      let (lt, empty, no_socket) = empty_place s u h l in
      record {
        storages = l.storages;
        store = with_derived-IsStore u.world s.world.next d lt empty i l.store;
        grows =
            with_derived-Grows s.world u.world s.world.next d (omega arith)
              (Grows-trans s.world (with_new s.world) u.world (with_new-Grows s.world) l.grows);
        sockets = λ n. l.sockets n;
      }

  pub placed-KeepsBelow :
      (n p : ℕ) (w : World K) (d : Derived)
      → w.derived p ≡ none
      → KeepsBelow n w (set_derived p d w)
  placed-KeepsBelow n p w d empty = record {
    derived = λ q d' lt e. ground arith;
    sockets = λ q s lt e. e;
  }

  pub placed_here :
      (p : ℕ) (d : Derived) (u : Site (Memory K)) → (placed p d u).world.world.derived p ≡ some d
  placed_here p d u = ground arith

  pub socketed-Left :
      {P : Type 0} (s t : Site (Memory K)) (x : SocketNode)
      → s.world.next < t.world.next
      → Left P s t
      → Left ⊥ s (record t { world = with_socket s.world.next x t.world })
  socketed-Left s t x lt l = record {
    storages = l.storages;
    store = with_socket-IsStore t.world s.world.next x lt l.store;
    grows = with_socket-Grows s.world t.world s.world.next x (omega arith) l.grows;
    sockets = λ n. absurd n;
  }

  pub socketed-KeepsBelow :
      (n p : ℕ) (w : World K) (x : SocketNode)
      → w.sockets p ≡ none
      → KeepsBelow n w (record w { sockets = at w.sockets p (some x) })
  socketed-KeepsBelow n p w x empty = record {
    derived = λ q d lt e. e;
    sockets = λ q s lt e. ground arith;
  }

  pub socket_here :
      (p : ℕ) (x : SocketNode) (w : World K)
      → (record w { sockets = at w.sockets p (some x) }).sockets p ≡ some x
  socket_here p x w = ground arith
