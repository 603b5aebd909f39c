-- ===== src/Runs/Calls.antt =====
-- Every virtual call and every handler keeps a closed relation, at any depth.
use arclaunch.Prelude.{
  ℕ, zero, suc, ◌≡◌, refl, Option, none, some, List, [], ◌∷◌, Exec, done, ◌>>◌, pure, not, inl, inr,
  length, Option-cases,
}
use arclaunch.Prelude.Map.{lookup, insert, erase}
use arclaunch.Os.{Os}
use arclaunch.Node.{CompletionHandler, external, sub_node_death, proceed}
use arclaunch.Node.Fds.{close_fds}
use arclaunch.Node.Instances.{
  startup, begin_instance, free_instance, run_handlers, finish_instance, handlers_of,
  instance_is_running,
}
use arclaunch.World.{
  World, Callback, Derived, LaunchNode, SocketNode, executable, launch, sequence_node, process_of,
  set_base, set_derived, on_node, modify,
}
use arclaunch.Process
use arclaunch.Dispatch
use arclaunch.Launch
use arclaunch.Runs.Sockets.{start_socket-After, accept_left-After}
use arclaunch.Runs.Launches.{start_launch-After, death-After}
use arclaunch.Runs.Sequences.{start_sequence-After, proceed-After}
use arclaunch.Runs.{After, After-then, After-bind, After-deref_at, After-if}
use arclaunch.Runs.Closed.{Closed}

module _ {K : Type 0} (os : Os K) (rounds : ℕ) (R T : World K → World K → Type 0)
    (c : Closed os rounds R T) where
  abbrev same : {A : Type 0} (a : A) (w : World K) → After R T w (done a w)
  same a w = c.run.same w

  started :
      (start : ℕ → ℕ → Exec (World K) (Unit {0}))
      → ((p inst : ℕ) (w : World K) → After R T w (start p inst w))
      → (p inst : ℕ) (w : World K)
      → After R T w (
          (do
            modify (λ v. set_base p (begin_instance inst (v.base p)) v)
            start p inst
            on_node p (λ l. done tt (close_fds os l))
            pure inst)
            w)
  started start h p inst w =
      let v = set_base p (begin_instance inst (w.base p)) w in
      let close = on_node p (λ l. done tt (close_fds os l)) in
      After-then R T c.run w v _ (c.begins p inst w) (
        After-bind R T c.run (start p inst) _ v (h p inst v) λ a t e.
          After-bind R T c.run close (λ u. pure inst) t (c.closes p t) (λ a t e. c.run.same t))

  pub startup-After :
      (start : ℕ → ℕ → Exec (World K) (Unit {0}))
      → ((p inst : ℕ) (w : World K) → After R T w (start p inst w))
      → (p : ℕ) (w : World K) → After R T w (startup os start p w)
  unfolding startup
  startup-After start h p w =
      elim (Option-cases (free_instance (suc (length (w.base p).instances)) 0 (w.base p))) [
        | inl e ↦ rw (e, startup) tt
        | inr (inst, e) ↦ rw (e, startup) (started start h p inst w)
      ]

  module _ (call : Callback K)
      (h : (x : CompletionHandler) (retval p inst : ℕ) (w : World K)
        → After R T w (call x retval p inst w)) where
    run_handlers-After :
        (retval p inst : ℕ) (xs : List CompletionHandler) (w : World K)
        → After R T w (run_handlers call retval p inst xs w)
    unfolding run_handlers
    run_handlers-After retval p inst [] w = c.run.same w
    run_handlers-After retval p inst (x ∷ xs) w =
        After-bind R T c.run (call x retval p inst) (λ u. run_handlers call retval p inst xs) w
          (h x retval p inst w) (λ a t e. run_handlers-After retval p inst xs t)

    pub finish_instance-After :
        (p inst retval : ℕ) (w : World K) → After R T w (finish_instance call p inst retval w)
    unfolding finish_instance
    finish_instance-After p inst retval w =
        After-if R T c.run (not (instance_is_running inst (w.base p))) (done tt w) _ w
          (c.run.same w)
          (After-bind R T c.run (run_handlers call retval p inst (w.base p).on_death) _ w
            (run_handlers-After retval p inst (w.base p).on_death w)
            λ a t e.
              After-bind R T c.run
                (λ v.
                  run_handlers call retval p inst (handlers_of (lookup inst (v.base p).instances))
                    v)
                _ t
                (run_handlers-After retval p inst (handlers_of (lookup inst (t.base p).instances))
                  t)
                (λ b u f. c.ends p inst u))

  module _ (finish : ℕ → ℕ → ℕ → Exec (World K) (Unit {0}))
      (finishes : (p inst retval : ℕ) (w : World K) → After R T w (finish p inst retval w)) where
    pub reap-After :
        (p pid retval : ℕ) (w : World K) → After R T w (Process.reap_process finish p pid retval w)
    unfolding Process.reap_process
    reap-After p pid retval w =
        let v = record w { running_nodes = erase pid w.running_nodes } in
        After-deref_at R T (λ u. process_of (u.derived p)) _ w v
          λ x e.
            let inst = Process.or_zero (lookup pid x.pid_instance) in
            let reaped =
              set_derived p
                (executable (record x { pid_instance = insert pid inst x.pid_instance })) v in
            After-then R T c.run w reaped _ (c.reaps p pid x w e) (finishes p inst retval reaped)

    pub reaper-After :
        (pid retval : ℕ) (w : World K) → After R T w (Process.reaper finish pid retval w)
    unfolding Process.reaper
    reaper-After pid retval w = elim (Option-cases (lookup pid w.running_nodes)) [
      | inl e ↦ rw (e, Process.reaper) (c.run.same w)
      | inr (p, e) ↦ rw (e, Process.reaper) (reap-After p pid retval w)
    ]

  -- All virtual calls of `startInstance`, and all handlers, at one depth.
  record Keeps (depth : ℕ) : Type 0 where
    starts :
        (p inst : ℕ) (w : World K) → After R T w (Dispatch.start_instance os rounds depth p inst w)
    handles :
        (h : CompletionHandler) (retval p inst : ℕ) (w : World K)
        → After R T w (Dispatch.handle os rounds depth h retval p inst w)

  module _ (depth : ℕ) (k : Keeps depth) where
    finishes :
        (p inst retval : ℕ) (w : World K)
        → After R T w (finish_instance (Dispatch.handle os rounds depth) p inst retval w)
    finishes = finish_instance-After (Dispatch.handle os rounds depth) k.handles

    node_starts :
        (p : ℕ) (w : World K)
        → After R T w (startup os (Dispatch.start_instance os rounds depth) p w)
    node_starts = startup-After (Dispatch.start_instance os rounds depth) k.starts

    launch_starts :
        (p inst : ℕ) (w : World K)
        → After R T w (
            Launch.start_instance os rounds
              (startup os (Dispatch.start_instance os rounds depth))
              (finish_instance (Dispatch.handle os rounds depth))
              p
              inst
              w)
    launch_starts = start_launch-After os rounds R T c _ node_starts _ finishes

    -- A launch node, which may be a socket node.
    group :
        (p inst : ℕ) (w : World K) (x : LaunchNode) (o : Option SocketNode)
        → w.derived p ≡ some (launch x)
        → w.sockets p ≡ o
        → After R T w (Dispatch.start_instance os rounds (suc depth) p inst w)
    unfolding Dispatch.start_instance
    group p inst w x none e f = rw (e, f, Dispatch.start_instance) (launch_starts p inst w)
    group p inst w x (some s) e f =
        rw (e, f, Dispatch.start_instance)
          (start_socket-After os rounds R T c _ node_starts _ finishes _ launch_starts p inst w)

    virtual :
        (p inst : ℕ) (w : World K) (d : Option Derived)
        → w.derived p ≡ d
        → After R T w (Dispatch.start_instance os rounds (suc depth) p inst w)
    unfolding Dispatch.start_instance
    virtual p inst w none e = rw (e, Dispatch.start_instance) tt
    virtual p inst w (some (executable x)) e = rw (e, Dispatch.start_instance) (c.forks p inst w)
    virtual p inst w (some (launch x)) e = group p inst w x (w.sockets p) e refl
    virtual p inst w (some (sequence_node x)) e =
        rw (e, Dispatch.start_instance)
          (start_sequence-After os rounds R T c _ node_starts _ finishes p inst w)

    handler :
        (h : CompletionHandler) (retval p inst : ℕ) (w : World K)
        → After R T w (Dispatch.handle os rounds (suc depth) h retval p inst w)
    unfolding Dispatch.handle
    handler (external tag) retval p inst w = c.calls _ w
    handler (sub_node_death q i) retval p inst w =
        death-After os rounds R T c _ finishes q i retval p inst w
    handler (proceed q i) retval p inst w =
        proceed-After os rounds R T c _ node_starts _ finishes q i retval w

  keeps : (depth : ℕ) → Keeps depth
  unfolding Dispatch.start_instance Dispatch.handle
  keeps zero = record { starts = λ p inst w. tt; handles = λ h retval p inst w. tt }
  keeps (suc depth) = record {
    starts = λ p inst w. virtual depth (keeps depth) p inst w (w.derived p) refl;
    handles = λ h retval p inst w. handler depth (keeps depth) h retval p inst w;
  }

  pub dispatch_startup-After :
      (depth p : ℕ) (w : World K) → After R T w (Dispatch.startup os rounds depth p w)
  unfolding Dispatch.startup
  dispatch_startup-After depth = node_starts depth (keeps depth)

  pub join-After :
      (depth p inst : ℕ) (w : World K) → After R T w (Dispatch.join_thread os rounds depth p inst w)
  unfolding Dispatch.join_thread
  join-After depth p inst w =
      accept_left-After os rounds R T c _ (node_starts depth (keeps depth)) _
        (finishes depth (keeps depth)) p inst (os.selects w.kernel p) w

  pub dispatch_finish-After :
      (depth p inst retval : ℕ) (w : World K)
      → After R T w (finish_instance (Dispatch.handle os rounds depth) p inst retval w)
  dispatch_finish-After depth = finishes depth (keeps depth)

  pub dispatch_reaper-After :
      (depth pid retval : ℕ) (w : World K)
      → After R T w (Dispatch.reaper os rounds depth pid retval w)
  unfolding Dispatch.reaper
  dispatch_reaper-After depth = reaper-After _ (finishes depth (keeps depth))
