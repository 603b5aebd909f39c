-- ===== src/Runs/Accounts/Links.antt =====
-- A link between two nodes of a launch leaves the descriptors accounted for: both ends of its pipe
-- are closed, and the nodes hold the duplicates.
use arclaunch.Prelude.{
  ℕ, ◌≡◌, ◌≢◌, ◌<◌, refl, ◌∙◌, subst, none, ◌⊎◌, inl, inr, arith, ◌==◌, Bool-cases, ◌>>=◌, ◌>>◌,
}
use arclaunch.Element.{Linkage}
use arclaunch.NameMap.{find_name}
use arclaunch.Os.{Os, Posix, Piped, piped, pipe_failed, Pipes}
use arclaunch.Node.Fds.{link_fd}
use arclaunch.World.{World, launch_of, on_node}
use arclaunch.Launch.{link_nodes, get_node, open_link, close_fd}
use arclaunch.Runs.WellFormed.Kept.{WellFormed-Plain}
use arclaunch.Runs.Accounts.{IsAccounted, Post, Post-bind, Post-deref_deref}
use arclaunch.Runs.Accounts.Holders.{nodes_hold}
use arclaunch.Runs.Accounts.Kept.{link_at}

module _ {K : Type 0} {os : Os K} (px : Posix os) (rounds : ℕ) (enough : px.limit < rounds)
    (Others : ℕ → Type 0) where
  -- While the link is made, the ends of its pipe have no holder.
  abbrev Ends : ℕ → ℕ → ℕ → Type 0
  Ends read_end write_end c = Others c ⊎ ((c ≡ read_end) ⊎ (c ≡ write_end))

  opened :
      (w : World K) (r t : ℕ) (k : K)
      → Pipes px.file w.kernel (piped r t k)
      → IsAccounted px Others w
      → IsAccounted px (Ends r t) (record w { kernel = k })
  opened w r t k (apart, shut, shut', open_r, open_t, others) h = record {
    well_formed = WellFormed-Plain.kernel k w h.well_formed;
    no_sockets = h.no_sockets;
    open_ones = λ c o. elim (Bool-cases (c == r)) [
      | inl is ↦ inr (inr (inl (ground arith)))
      | inr no_r ↦ elim (Bool-cases (c == t)) [
        | inl is ↦ inr (inr (inr (ground arith)))
        | inr no_t ↦
            let same = others c (λ e. ground arith) (λ e. ground arith) in
            elim (h.open_ones c (λ z. o (same ∙ z))) [
              | inr other ↦ inr (inl other)
              | inl held ↦ inl (nodes_hold w (record w { kernel = k }) c (λ p x. x) refl held)
            ]
      ]
    ];
  }

  -- closing of an end, which is then shut.
  shut_after : (k : K) (a c : ℕ) → px.file (os.close k a) c ≢ none → (c ≢ a) × (px.file k c ≢ none)
  shut_after k a c o = elim (Bool-cases (c == a)) [
    | inl is ↦
        let same : a ≡ c = ground arith in
        absurd (o (subst (λ c. px.file (os.close k a) c ≡ none) same (px.close_target k a)))
    | inr other ↦ let ne : c ≢ a = λ e. ground arith in (ne, λ z. o (px.close_others k a c ne ∙ z))
  ]

  shut_both :
      (w : World K) (r t : ℕ)
      → IsAccounted px (Ends r t) w
      → IsAccounted px Others (record w { kernel = os.close (os.close w.kernel r) t })
  shut_both w r t h =
      let k = os.close (os.close w.kernel r) t in
      record {
        well_formed = WellFormed-Plain.kernel k w h.well_formed;
        no_sockets = h.no_sockets;
        open_ones = λ c o.
            let (ne_t, o') = shut_after (os.close w.kernel r) t c o in
            let (ne_r, o'') = shut_after w.kernel r c o' in
            elim (h.open_ones c o'') [
              | inl held ↦ inl (nodes_hold w (record w { kernel = k }) c (λ p x. x) refl held)
              | inr (inl other) ↦ inr other
              | inr (inr (inl is_r)) ↦ absurd (ne_r is_r)
              | inr (inr (inr is_t)) ↦ absurd (ne_t is_t)
            ];
      }

  between :
      (p r t : ℕ) (x : Linkage) (w : World K)
      → IsAccounted px (Ends r t) w
      → Post (IsAccounted px Others) (
          (do
            to ← get_node p x.to
            on_node to (link_fd os rounds x.to_fd r)
            from ← get_node p x.from
            on_node from (link_fd os rounds x.from_fd t)
            close_fd os rounds r
            close_fd os rounds t)
            w)
  unfolding get_node
  between p r t x w h =
      let In = IsAccounted px (Ends r t) in
      let Out = IsAccounted px Others in
      Post-deref_deref Out (λ v. launch_of (v.derived p)) (λ l v. find_name x.to l.nodes) _ w
        λ l to e f.
          Post-bind In Out (on_node to (link_fd os rounds x.to_fd r)) _ w
            (link_at px rounds enough (Ends r t) to x.to_fd r w h)
            λ a v i.
              Post-deref_deref Out (λ v. launch_of (v.derived p)) (λ l v. find_name x.from l.nodes)
                _ v
                λ l from e f.
                  Post-bind In Out (on_node from (link_fd os rounds x.from_fd t)) _ v
                    (link_at px rounds enough (Ends r t) from x.from_fd t v i)
                    (λ a u j. shut_both u r t j)

  pub links :
      (p : ℕ) (x : Linkage) (w : World K)
      → IsAccounted px Others w
      → Post (IsAccounted px Others) (link_nodes os rounds p x w)
  unfolding link_nodes open_link
  links p x w h = piped_off (os.pipe2 w.kernel) refl (px.pipe2_lem w.kernel)
    where
      piped_off :
          (o : Piped K)
          → os.pipe2 w.kernel ≡ o
          → Pipes px.file w.kernel o
          → Post (IsAccounted px Others) (link_nodes os rounds p x w)
      piped_off (piped r t k) e pipes =
          rw (e, ◌>>=◌, link_nodes, open_link)
            (between p r t x (record w { kernel = k }) (opened w r t k pipes h))
      piped_off (pipe_failed k) e pipes = rw (e, ◌>>=◌, link_nodes, open_link) tt
