-- ===== src/Runs/Accounts/Returned.antt =====
-- After calls that have returned, every descriptor is accounted for.
use arclaunch.Prelude.{
  ℕ, ◌≡◌, ◌≢◌, ◌<◌, refl, sym, ◌∙◌, Option, some, ◌>>=◌, subst, none, List, [], ◌∷◌, ◌⊎◌, inr, Exec,
  done, ◌>>◌, pure, ◌++◌,
}
use arclaunch.Prelude.Map.{erase}
use arclaunch.Os.{Os, Posix}
use arclaunch.Node.{external}
use arclaunch.Node.Fds.{pass_fd, pass_fds}
use arclaunch.Node.Instances.{
  begin_instance, add_instance_completion_handler, add_completion_handler,
}
use arclaunch.Socket.{start_accepting, prepare_accept, take_connection}
use arclaunch.World.{SocketNode, World, launch, set_derived}
use arclaunch.Dispatch
use arclaunch.Runs.{IsRun, After, After-bind, After-deref}
use arclaunch.Runs.Sockets.{accept_fds-After}
use arclaunch.Runs.Closed.{Closed}
use arclaunch.Runs.Calls.{dispatch_startup-After, dispatch_reaper-After}
use arclaunch.Runs.Blocks.{dispatch_wait-After, wait_for-After}
use arclaunch.Runs.Events.{
  Event, start_node, child_ended, wait_node, add_handler, add_instance_handler, link, accept_round,
  perform,
}
use arclaunch.Runs.WellFormed.{IsWellFormed}
use arclaunch.Runs.WellFormed.Kept.{WellFormed-Plain, set_base-IsWellFormed}
use arclaunch.Runs.Accounts.{Held, IsAccounted, Post, Post-After}
use arclaunch.Runs.Accounts.Local.{pass_fds-Adds, pass_fd-Adds}
use arclaunch.Runs.Accounts.Holders.{nodes_hold, other_class_holds}
use arclaunch.Runs.Accounts.Nodes.{
  assigned, node_assigned, of_node, on_node-Accounted, close_fds-Accounted,
}
use arclaunch.Runs.Accounts.Running.{
  starts-Accounted, runs-Accounted, passes_running-Accounted, erases_running-Accounted,
}
use arclaunch.Runs.Accounts.Kept.{link_at, forks, process_assigned, launch_no_sequence}
use arclaunch.Runs.Accounts.Links.{links}

-- The events one after the other.
unfoldable pub perform_all : {K : Type 0} → Os K → ℕ → ℕ → List Event → Exec (World K) (Unit {0})
unfolding perform
perform_all os rounds depth [] = pure tt
perform_all os rounds depth (e ∷ es) = do perform os rounds depth e; perform_all os rounds depth es

module _ {K : Type 0} {os : Os K} (px : Posix os) (rounds : ℕ) (enough : px.limit < rounds) where
  module _ (Others : ℕ → Type 0) where
    abbrev pub I : World K → Type 0
    I = IsAccounted px Others

    abbrev pub R : World K → World K → Type 0
    R w v = I w → I v

    abbrev pub T : World K → World K → Type 0
    T w v = Unit {0}

    invariant_run : IsRun R T
    invariant_run = record {
      same = λ w h. h;
      then_run = λ w v u f g h. g (f h);
      then_throw = λ w v u f g. tt;
      gives_up = λ w v f. tt;
    }

    not_missing : (s : SocketNode) → ¬ Path (Option SocketNode) (some s) none
    not_missing s e = absurd (cc)

    -- Without socket nodes no socket is opened: the methods would follow a pointer to one.
    no_listening :
        (p inst : ℕ) (w : World K) → I w → Post I (start_accepting os os.net rounds p inst w)
    unfolding start_accepting prepare_accept
    no_listening p inst w h = rw (h.no_sockets p, start_accepting, prepare_accept, ◌>>=◌) tt

    no_connection :
        (p acc_sock : ℕ) (w : World K)
        → I w
        → Post I (take_connection os os.net rounds p acc_sock w)
    unfolding take_connection
    no_connection p acc_sock w h = answered (os.net.accept4 w.kernel acc_sock).0 refl
      where
        answered :
            (o : Option ℕ)
            → (os.net.accept4 w.kernel acc_sock).0 ≡ o
            → Post I (take_connection os os.net rounds p acc_sock w)
        answered none e = rw (e, take_connection) tt
        answered (some fd) e = rw (e, h.no_sockets p, take_connection, ◌>>=◌) tt

    pub Accounted-Closed : Closed os rounds R T
    unfolding begin_instance add_instance_completion_handler
    Accounted-Closed = record {
      run = invariant_run;
      begins = λ p inst w.
          node_assigned px rounds Others w p (begin_instance inst (w.base p)) refl
            (WellFormed-Plain.begins p inst w);
      ends = λ p inst w.
          node_assigned px rounds Others w p
            (record (w.base p) { instances = erase inst (w.base p).instances }) refl
            (WellFormed-Plain.ends p inst w);
      awaits = λ p h w.
          node_assigned px rounds Others w p (add_instance_completion_handler h (w.base p)) refl
            (WellFormed-Plain.awaits p h w);
      calls = λ c w.
          assigned px rounds Others w (record w { calls = w.calls ++ c ∷ [] }) refl
            (WellFormed-Plain.calls c w) (λ c o. o)
            (λ d. nodes_hold w (record w { calls = w.calls ++ c ∷ [] }) d (λ p x. x) refl);
      closes = λ p w. close_fds-Accounted px rounds Others p w;
      links = λ p x w. Post-After I w _ (links px rounds enough Others p x w);
      passes = λ p m fd child_fd w. Post-After I w _ (
          on_node-Accounted px rounds Others p (pass_fd os rounds m fd child_fd) w
            (pass_fd-Adds px rounds enough m fd child_fd (of_node px rounds Others p w)));
      passes_all = λ p m w. Post-After I w _ (
          on_node-Accounted px rounds Others p (pass_fds os rounds m) w
            (pass_fds-Adds px rounds enough m (of_node px rounds Others p w)));
      passes_running = λ p inst m w.
          Post-After I w _ (passes_running-Accounted px rounds Others enough p inst m w);
      erases_running =
          λ p inst w. Post-After I w _ (erases_running-Accounted px rounds Others p inst w);
      forks = λ p inst w. Post-After I w _ (forks px rounds enough Others p inst w);
      reaps = λ p pid x w e.
          process_assigned px rounds enough Others w _ p x _ e refl refl refl refl
            (WellFormed-Plain.reaps p pid x w e);
      launches = λ p l m w e f.
          assigned px rounds Others w _ refl (WellFormed-Plain.launches p l m w e f) (λ c o. o)
            (λ c.
              other_class_holds w (set_derived p (launch (record l { instances = m })) w) c p _
                (launch_no_sequence (w.derived p) l e) refl refl);
      starts = starts-Accounted px rounds Others;
      runs = runs-Accounted px rounds Others;
      listens = λ p inst w. Post-After I w _ (no_listening p inst w);
      connects = λ p acc_sock w. Post-After I w _ (no_connection p acc_sock w);
      sockets = λ p s t w e h. absurd (not_missing s (sym e ∙ h.no_sockets p));
    }

    pub perform-Accounted :
        (depth : ℕ) (e : Event) (w : World K) → After R T w (perform os rounds depth e w)
    unfolding perform add_completion_handler
    perform-Accounted depth (start_node p) w =
        After-bind R T invariant_run (Dispatch.startup os rounds depth p) _ w
          (dispatch_startup-After os rounds R T Accounted-Closed depth p w) (λ a t e h. h)
    perform-Accounted depth (child_ended pid retval) w =
        dispatch_reaper-After os rounds R T Accounted-Closed depth pid retval w
    perform-Accounted depth (wait_node answers p) w =
        wait_for-After os rounds R T Accounted-Closed _
          (dispatch_wait-After os rounds R T Accounted-Closed answers depth) rounds p w
    perform-Accounted depth (add_handler p tag) w =
        node_assigned px rounds Others w p (add_completion_handler (external tag) (w.base p)) refl (
          set_base-IsWellFormed w p (add_completion_handler (external tag) (w.base p)) (λ g. g)
            (λ g. g))
    perform-Accounted depth (add_instance_handler p tag) w =
        Accounted-Closed.awaits p (external tag) w
    perform-Accounted depth (link p fd ext_fd) w =
        Post-After I w _ (link_at px rounds enough Others p fd ext_fd w)
    perform-Accounted depth (accept_round p ready num) w =
        After-deref R T (λ v. v.sockets p) _ w
          λ s e.
            accept_fds-After os rounds R T Accounted-Closed (Dispatch.startup os rounds depth)
              (dispatch_startup-After os rounds R T Accounted-Closed depth) p ready num s.fds w

    perform_all-Accounted :
        (depth : ℕ) (es : List Event) (w : World K) → After R T w (perform_all os rounds depth es w)
    unfolding perform_all
    perform_all-Accounted depth [] w = λ h. h
    perform_all-Accounted depth (e ∷ es) w =
        After-bind R T invariant_run (perform os rounds depth e) _ w (perform-Accounted depth e w)
          (λ a t f. perform_all-Accounted depth es t)

  -- After any sequence of calls that all return, whichever nodes they start and whatever ends, each
  -- open descriptor is held by a node, or by a sequence that is running, or was open at the start:
  -- no descriptor is leaked, by a duplicate, by an end of a pipe, or by an instance that has ended.
  -- The nodes are well formed at the start and none is a socket node, and the loops of `linkFd` have
  -- more rounds than there are descriptors.
  pub perform_all-Held :
      (depth : ℕ) (es : List Event) (w v : World K)
      → IsWellFormed w
      → ((p : ℕ) → w.sockets p ≡ none)
      → perform_all os rounds depth es w ≡ done tt v
      → (c : ℕ) → px.file v.kernel c ≢ none
      → Held v c ⊎ (px.file w.kernel c ≢ none)
  perform_all-Held depth es w v h no_sockets e c o =
      let Others : ℕ → Type 0 = λ c. px.file w.kernel c ≢ none in
      let kept =
        subst (λ o. After (R Others) (T Others) w o) e (perform_all-Accounted Others depth es w) in
      (kept
          (record { well_formed = h; no_sockets = no_sockets; open_ones = λ c o. inr o })).open_ones
        c o
