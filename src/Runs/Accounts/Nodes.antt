-- ===== src/Runs/Accounts/Nodes.antt =====
-- The methods of class Node leave the descriptors accounted for.
use arclaunch.Prelude.{
  ℕ, ◌≡◌, ◌≢◌, refl, ap, Option, sym, ◌∙◌, subst, none, [], inl, inr, Outcome, Exec, done, thrown,
  exited, undefined, no_fuel, arith, ◌==◌, Bool-cases, Option-cases,
}
use arclaunch.Prelude.Map.{lookup}
use arclaunch.Os.{Os, Posix}
use arclaunch.Node.{Node}
use arclaunch.Node.Fds.{Local, close_fds, close_all}
use arclaunch.Node.Fds.Close.{file-close_all}
use arclaunch.World.{World, SocketNode, at, set_base, on_node}
use arclaunch.Runs.Fds.{close_fds-OnlyFds}
use arclaunch.Runs.Plain.{node_fds}
use arclaunch.Runs.WellFormed.{IsWellFormed}
use arclaunch.Runs.WellFormed.Kept.{WellFormed-Plain}
use arclaunch.Runs.Accounts.{Has, Held, by_node, IsAccounted, Post}
use arclaunch.Runs.Accounts.Local.{Adds}
use arclaunch.Runs.Accounts.Holders.{nodes_hold}

module _ {K : Type 0} {os : Os K} (px : Posix os) (rounds : ℕ) (Others : ℕ → Type 0) where
  abbrev pub Accounted : World K → Type 0
  Accounted = IsAccounted px Others

  abbrev pub of_node : ℕ → World K → Local K
  of_node p w = record { node = w.base p; kernel = w.kernel }

  -- No descriptor is opened, and none loses its holder.
  pub assigned :
      (w v : World K)
      → v.sockets ≡ w.sockets
      → (IsWellFormed w → IsWellFormed v)
      → ((c : ℕ) → px.file v.kernel c ≢ none → px.file w.kernel c ≢ none)
      → ((c : ℕ) → Held w c → Held v c)
      → Accounted w
      → Accounted v
  assigned w v sockets well opened keep h = record {
    well_formed = well h.well_formed;
    no_sockets = λ p. ap (λ (f : ℕ → Option SocketNode). f p) sockets ∙ h.no_sockets p;
    open_ones = λ c o. elim (h.open_ones c (opened c o)) [
      | inl held ↦ inl (keep c held)
      | inr other ↦ inr other
    ];
  }

  node_keeps :
      (w : World K) (p c : ℕ) (n : Node) (q : ℕ)
      → (Has c (w.base p).fd_map → Has c n.fd_map)
      → Has c (w.base q).fd_map
      → Has c (at w.base p n q).fd_map
  node_keeps w p c n q keep h = elim (Bool-cases (p == q)) [
    | inr other ↦ rw other h
    | inl is ↦
        let same : q ≡ p = ground arith in
        rw is (keep (subst (λ q. Has c (w.base q).fd_map) same h))
  ]

  -- A node that keeps its descriptors.
  pub node_assigned :
      (w : World K) (p : ℕ) (n : Node)
      → n.fd_map ≡ (w.base p).fd_map
      → (IsWellFormed w → IsWellFormed (set_base p n w))
      → Accounted w
      → Accounted (set_base p n w)
  node_assigned w p n e well h =
      assigned w (set_base p n w) refl well (λ c o. o)
        (λ c.
          nodes_hold w (set_base p n w) c (λ q. node_keeps w p c n q (subst (λ m. Has c m) (sym e)))
            refl)
        h

  node_takes :
      (p : ℕ) (w : World K) (l : Local K)
      → Adds px (of_node p w) l
      → Accounted w
      → Accounted (record w { base = at w.base p l.node; kernel = l.kernel })
  node_takes p w l adds h =
      let v : World K = record w { base = at w.base p l.node; kernel = l.kernel } in
      record {
        well_formed = node_fds os rounds _ WellFormed-Plain p w l adds.only h.well_formed;
        no_sockets = h.no_sockets;
        open_ones = λ c o. elim (adds.opened c o) [
          | inl has ↦
              let here : at w.base p l.node p ≡ l.node = ground arith in
              inl (by_node p (subst (λ (n : Node). Has c n.fd_map) (sym here) has))
          | inr was ↦ elim (h.open_ones c was) [
            | inr other ↦ inr other
            | inl held ↦
                inl (nodes_hold w v c (λ q. node_keeps w p c l.node q (adds.kept c)) refl held)
          ]
        ];
      }

  pub on_node-Accounted :
      {A : Type 0} (p : ℕ) (m : Exec (Local K) A) (w : World K)
      → Post (Adds px (of_node p w)) (m (of_node p w))
      → Accounted w
      → Post Accounted (on_node p m w)
  on_node-Accounted {A} p m w adds h = ran (m (of_node p w)) adds
    where
      ran :
          (o : Outcome (Local K) A)
          → Post (Adds px (of_node p w)) o
          → Post Accounted (on_node p (λ l. o) w)
      ran (done a l) adds = node_takes p w l adds h
      ran (thrown e l) adds = tt
      ran (exited n l) adds = tt
      ran undefined adds = tt
      ran no_fuel adds = tt

  -- `closeFds` closes all that the node holds.
  pub close_fds-Accounted :
      (p : ℕ) (w : World K)
      → Accounted w
      → Accounted (record w {
        base = at w.base p (close_fds os (of_node p w)).node;
        kernel = (close_fds os (of_node p w)).kernel;
      })
  unfolding close_fds
  close_fds-Accounted p w h = record {
    well_formed =
        node_fds os rounds _ WellFormed-Plain p w (close_fds os (of_node p w))
          (close_fds-OnlyFds os rounds (of_node p w)) h.well_formed;
    no_sockets = h.no_sockets;
    open_ones = λ c o.
        let m = (w.base p).fd_map in
        let v : World K = record w {
          base = at w.base p (record (w.base p) { fd_map = [] });
          kernel = close_all os m w.kernel;
        } in
        elim (Option-cases (lookup c m)) [
          | inr (fd, e) ↦ absurd (o (file-close_all px m w.kernel c ∙ rw e refl))
          | inl e ↦ elim (h.open_ones c (λ z. o (file-close_all px m w.kernel c ∙ rw e z))) [
            | inr other ↦ inr other
            | inl held ↦ inl (
                nodes_hold w v c
                  (λ q.
                    node_keeps w p c (record (w.base p) { fd_map = [] }) q (λ (fd, f). absurd (cc)))
                  refl held)
          ]
        ];
  }
