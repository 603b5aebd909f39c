-- ===== src/Build/Made.antt =====
-- All nodes of a launch file are made, by induction on its elements.
use arclaunch.Prelude.{ℕ, zero, suc, ◌≡◌, refl, ◌∙◌, [], arith, done, ◌>>=◌}
use arclaunch.Text.{text_eq}
use arclaunch.NameMap.{NameMap, find_name, insert_name}
use arclaunch.Element.{
  Element, Elements, plain, file, executable, script, group, launch, sequence_node, socket_node,
  nil, cons,
}
use arclaunch.Command
use arclaunch.Context.{executable_node, script_node, Site, execute, group_nodes, name_of, context}
use arclaunch.Context.Classes.{class_of}
use arclaunch.Context.Group.{find_name-insert_name}
use arclaunch.Os.{Net}
use arclaunch.Memory.{Memory}
use arclaunch.Build.{make, construct}
use arclaunch.Build.Trees.{
  Choose-map, occurs, IsValid, AreValid, HasNoSocket, Built, SameBelow-KeepsBelow, stays,
}
use arclaunch.Build.Kept.{IsStore, Grows-refl, Grows-trans, with_new-IsStore}
use arclaunch.Build.Places.{Left, newed, placed_here}
use arclaunch.Build.Names.{names_step}
use arclaunch.Build.Found.{Result, Members}
use arclaunch.Build.Groups.{launch_made, sequence_made, program_made, socket_made}

module _ {K : Type 0} (net : Net K) where
  next_member :
      (depth : ℕ) (e : Element) (es : Elements) (nodes : NameMap) (s t : Site (Memory K))
      → execute (construct net depth) e s ≡ done s.world.next t
      → Left (HasNoSocket e) s t
      → Built t.world.next t.world.world s.world.next e
      → Members net depth es (insert_name (name_of e) s.world.next nodes) t
      → Members net depth (cons e es) nodes s
  unfolding group_nodes occurs Built HasNoSocket
  next_member depth e es nodes s t run l b (m, u, runs, k, names) = (
    m,
    u,
    rw (run, ◌>>=◌) runs,
    record {
      storages = k.storages ∙ l.storages;
      store = k.store;
      grows = Grows-trans s.world t.world u.world l.grows k.grows;
      sockets = λ (h, hs). k.sockets hs ∙ l.sockets h;
    },
    λ j.
        names_step (occurs j es) (text_eq (name_of e) j) _ _ (find_name j m) (find_name j nodes)
          s.world.next
          (Choose-map (occurs j es) (λ z. z)
            (λ z. z ∙ find_name-insert_name (name_of e) j s.world.next nodes) (names j))
          (stays t.world.world u.world.world k.grows.more
            (SameBelow-KeepsBelow t.world.next t.world.world u.world.world k.grows.below)
            s.world.next e b),
  )

  mutual
    unfolding IsValid HasNoSocket make class_of Built Command.executable_node Command.script_node
        group_nodes occurs

    pub made :
        (depth : ℕ) (e : Element) (s : Site (Memory K))
        → s.context.storages ≡ context.storages
        → IsValid net depth e
        → IsStore s.world
        → Result net depth e s
    made zero e s reg v h = absurd v
    made (suc depth) (plain name) s reg v h = absurd v
    made (suc depth) (file name ps) s reg v h = absurd v
    made (suc depth) (group name es) s reg v h = absurd v
    made (suc depth) (executable name x) s reg v h =
        program_made net depth (executable name x) executable_node (Command.executable_node x) s reg
          h refl refl (omega arith, placed_here s.world.next _ (newed s))
    made (suc depth) (script name x) s reg (c, is) h =
        program_made net depth (script name x) script_node c s reg h refl (rw (make, is) refl)
          (omega arith, c, is, placed_here s.world.next _ (newed s))
    made (suc depth) (launch name es links externals) s reg v h =
        launch_made net depth name es links externals s reg h
          (made_all depth es [] (newed s) reg v (with_new-IsStore s.world h))
    made (suc depth) (sequence_node name es repeats) s reg v h =
        sequence_made net depth name es repeats s reg h
          (made_all depth es [] (newed s) reg v (with_new-IsStore s.world h))
    made (suc depth) (socket_node name es links externals sockets service address) s reg
          (v, (res, found)) h =
        socket_made net depth name es links externals sockets service address res s reg found h
          (made_all depth es [] (newed s) reg v (with_new-IsStore s.world h))

    pub made_all :
        (depth : ℕ) (es : Elements) (nodes : NameMap) (s : Site (Memory K))
        → s.context.storages ≡ context.storages
        → AreValid net depth es
        → IsStore s.world
        → Members net depth es nodes s
    made_all depth nil nodes s reg v h = (
      nodes,
      s,
      refl,
      record { storages = refl; store = h; grows = Grows-refl s.world; sockets = λ n. refl },
      λ k. refl,
    )
    made_all depth (cons e es) nodes s reg (v, vs) h =
        let (t, run, l, b) = made depth e s reg v h in
        next_member depth e es nodes s t run l b (
          made_all depth es (insert_name (name_of e) s.world.next nodes) t (l.storages ∙ reg) vs
            l.store)
