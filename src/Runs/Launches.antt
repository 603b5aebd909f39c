-- ===== src/Runs/Launches.antt =====
-- The methods of LaunchNode keep a closed relation, if those of its nodes do.
use arclaunch.Prelude.{
  ℕ, ◌≡◌, sym, ◌∙◌, subst, some, is_some, List, [], ◌∷◌, Exec, ◌>>=◌, ◌>>◌, pure, if◌then◌else◌,
  inl, inr, arith, Bool-cases,
}
use arclaunch.Prelude.Map.{
  IsMap, lookup, insert, erase, lookup-insert, lookup-erase, insert-From, erase-From,
}
use arclaunch.Element.{Linkage, Externalize}
use arclaunch.NameMap.{NameMap, find_name}
use arclaunch.Os.{Os}
use arclaunch.Node.{sub_node_death}
use arclaunch.Node.Fds.{pass_fd}
use arclaunch.Node.Instances.{add_instance_completion_handler}
use arclaunch.World.{
  World, LaunchNode, LaunchInstance, launch, launch_of, set_base, set_derived, on_node,
}
use arclaunch.Launch.{
  link_nodes, link_all, externalize, get_node, the_instance, put_instance, erase_instance, emplace,
  is_empty, start_nodes, start_instance, on_sub_node_death,
}
use arclaunch.Runs.{After, After-then, After-bind, After-deref, After-choice, After-deref_deref}
use arclaunch.Runs.Closed.{Closed, IsLaunch}

insert-IsLaunch :
    (l : LaunchNode) (inst : ℕ) (x : LaunchInstance)
    → IsLaunch l
    → IsMap x.node_instances
    → IsLaunch (record l { instances = insert inst x l.instances })
insert-IsLaunch l inst x h m = record {
  instances = insert-From inst 0 x l.instances (omega arith) h.instances;
  nodes = λ i y e. ground (arith, lookup-insert inst x l.instances i, h.nodes i y);
}

emplace-IsLaunch :
    (l : LaunchNode) (inst : ℕ) (x : LaunchInstance)
    → IsLaunch l
    → IsMap x.node_instances
    → IsLaunch (record l { instances = emplace inst x l.instances })
unfolding emplace
emplace-IsLaunch l inst x h m = elim (Bool-cases (is_some (lookup inst l.instances))) [
  | inl e ↦ rw e h
  | inr e ↦ rw e (insert-IsLaunch l inst x h m)
]

erase-IsLaunch :
    (l : LaunchNode) (inst : ℕ)
    → IsLaunch l
    → IsLaunch (record l { instances = erase inst l.instances })
erase-IsLaunch l inst h = record {
  instances = erase-From inst 0 l.instances h.instances;
  nodes = λ i y e. ground (arith, lookup-erase inst i 0 l.instances, h.nodes i y);
}

module _ {K : Type 0} (os : Os K) (rounds : ℕ) (R T : World K → World K → Type 0)
    (c : Closed os rounds R T) where
  pub get_instance-After :
      {B : Type 0} (p inst : ℕ) (k : LaunchInstance → Exec (World K) B) (w : World K)
      → ((l : LaunchNode) (x : LaunchInstance)
          → launch_of (w.derived p) ≡ some l
          → lookup inst l.instances ≡ some x
          → After R T w (k x w))
      → After R T w ((the_instance p inst >>= k) w)
  unfolding the_instance
  get_instance-After p inst k w h =
      After-deref_deref R T (λ v. launch_of (v.derived p)) (λ l v. lookup inst l.instances) k w h

  put_instance-After :
      (p inst : ℕ) (x : LaunchInstance) (l : LaunchNode) (w : World K)
      → launch_of (w.derived p) ≡ some l
      → (IsLaunch l → IsMap x.node_instances)
      → After R T w (put_instance p inst x w)
  unfolding put_instance
  put_instance-After p inst x l w found h =
      After-deref R T (λ w. launch_of (w.derived p)) _ w
        λ l' e.
          let both : some l ≡ some l' = sym found ∙ e in
          let same : l ≡ l' = cc in
          c.launches p l' (insert inst x l'.instances) w e (λ ok.
            insert-IsLaunch l' inst x ok
              (subst (λ l. IsLaunch l → IsMap x.node_instances) same h ok))

  erase_instance-After : (p inst : ℕ) (w : World K) → After R T w (erase_instance p inst w)
  unfolding erase_instance
  erase_instance-After p inst w =
      After-deref R T (λ w. launch_of (w.derived p)) _ w
        λ l e. c.launches p l (erase inst l.instances) w e (λ ok. erase-IsLaunch l inst ok)

  link_all-After :
      (p : ℕ) (xs : List Linkage) (w : World K) → After R T w (link_all os rounds p xs w)
  unfolding link_all
  link_all-After p [] w = c.run.same w
  link_all-After p (x ∷ xs) w =
      After-bind R T c.run (link_nodes os rounds p x) _ w (c.links p x w)
        (λ a t e. link_all-After p xs t)

  externalize-After :
      (p : ℕ) (xs : List Externalize) (w : World K) → After R T w (externalize os rounds p xs w)
  unfolding externalize get_node
  externalize-After p [] w = c.run.same w
  externalize-After p (x ∷ xs) w =
      After-deref_deref R T (λ v. launch_of (v.derived p)) (λ l v. find_name x.node l.nodes) _ w
        λ l n e f.
          After-bind R T c.run
            (λ w. on_node n (pass_fd os rounds (w.base p).fd_map x.external x.internal) w) _ w
            (c.passes n (w.base p).fd_map x.external x.internal w)
            (λ a t g. externalize-After p xs t)

  module _ (startup : ℕ → Exec (World K) ℕ)
      (starts : (p : ℕ) (w : World K) → After R T w (startup p w)) where
    start_nodes-After :
        (p inst : ℕ) (ns : NameMap) (w : World K)
        → After R T w (start_nodes os rounds startup p inst ns w)
    unfolding start_nodes
    start_nodes-After p inst [] w = c.run.same w
    start_nodes-After p inst ((name, node) ∷ ns) w =
        let v =
          set_base node (add_instance_completion_handler (sub_node_death p inst) (w.base node)) w in
        After-then R T c.run w v _ (c.awaits node (sub_node_death p inst) w) (
          After-bind R T c.run (startup node) _ v (starts node v) λ number t e.
            get_instance-After p inst _ t λ l x f g.
              After-bind R T c.run
                (put_instance p inst
                  (record x { node_instances = insert node number x.node_instances }))
                _ t
                (put_instance-After p inst _ l t f λ ok.
                  insert-From node 0 number x.node_instances (omega arith) (ok.nodes inst x g))
                (λ a u e'. start_nodes-After p inst ns u))

    module _ (finish_instance : ℕ → ℕ → ℕ → Exec (World K) (Unit {0}))
        (finishes : (p inst retval : ℕ) (w : World K)
          → After R T w (finish_instance p inst retval w)) where
      all_ended :
          (p inst : ℕ) (x : LaunchInstance) (w : World K)
          → After R T w (
              (if is_empty x.node_instances
                  then (do finish_instance p inst 0; erase_instance p inst)
                  else pure tt)
                w)
      all_ended p inst x w =
          After-choice R T c.run (is_empty x.node_instances) _ (pure tt) w
            (After-bind R T c.run (finish_instance p inst 0) _ w (finishes p inst 0 w)
              (λ a t e. erase_instance-After p inst t))
            (c.run.same w)

      -- What `startInstance` does with the new entry.
      entered :
          (p inst : ℕ) (ns : NameMap) (w : World K)
          → After R T w (
              (do
                x ← the_instance p inst
                put_instance p inst (record x { owner = p; inst_num = inst })
                start_nodes os rounds startup p inst ns
                x ← the_instance p inst
                if is_empty x.node_instances
                    then (do finish_instance p inst 0; erase_instance p inst)
                    else pure tt)
                w)
      entered p inst ns w = get_instance-After p inst _ w λ l x e f.
          After-bind R T c.run (put_instance p inst (record x { owner = p; inst_num = inst })) _ w
            (put_instance-After p inst _ l w e (λ ok. ok.nodes inst x f))
            λ a t g.
              After-bind R T c.run (start_nodes os rounds startup p inst ns) _ t
                (start_nodes-After p inst ns t)
                λ a u g. get_instance-After p inst _ u λ l x e f. all_ended p inst x u

      pub start_launch-After :
          (p inst : ℕ) (w : World K)
          → After R T w (start_instance os rounds startup finish_instance p inst w)
      unfolding start_instance
      start_launch-After p inst w =
          After-deref R T (λ v. launch_of (v.derived p)) _ w
            λ l e.
              After-bind R T c.run (link_all os rounds p l.links) _ w (link_all-After p l.links w)
                λ a t e.
                  After-bind R T c.run (externalize os rounds p l.externals) _ t
                    (externalize-After p l.externals t)
                    λ a u e.
                      After-deref R T (λ v. launch_of (v.derived p)) _ u
                        λ m f.
                          let new : LaunchInstance = record {
                            owner = p;
                            inst_num = inst;
                            node_instances = [];
                          } in
                          let v =
                            set_derived p
                              (launch (record m { instances = emplace inst new m.instances })) u in
                          After-then R T c.run u v _
                            (c.launches p m (emplace inst new m.instances) u f
                              (λ ok. emplace-IsLaunch m inst new ok tt))
                            (entered p inst m.nodes v)

  pub death-After :
      (finish_instance : ℕ → ℕ → ℕ → Exec (World K) (Unit {0}))
      → ((p inst retval : ℕ) (w : World K) → After R T w (finish_instance p inst retval w))
      → (p inst retval sub_node sub_inst : ℕ) (w : World K)
      → After R T w (on_sub_node_death finish_instance p inst retval sub_node sub_inst w)
  unfolding on_sub_node_death
  death-After finish_instance finishes p inst retval sub_node sub_inst w =
      get_instance-After p inst _ w λ l x e f.
        let left = erase sub_node x.node_instances in
        After-bind R T c.run (put_instance p inst (record x { node_instances = left })) _ w
          (put_instance-After p inst _ l w e
            λ ok. erase-From sub_node 0 x.node_instances (ok.nodes inst x f))
          λ a t g.
            After-choice R T c.run (is_empty left) _ (pure tt) t
              (After-bind R T c.run (finish_instance x.owner x.inst_num 0) _ t
                (finishes x.owner x.inst_num 0 t)
                λ a u h.
                  get_instance-After p inst _ u
                    λ m y e f. erase_instance-After y.owner y.inst_num u)
              (c.run.same t)
