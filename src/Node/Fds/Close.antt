-- ===== src/Node/Fds/Close.antt =====
-- What `closeFds` does.
use arclaunch.Prelude.{ℕ, ◌≡◌, refl, none, is_some, [], ◌∷◌, arith, if◌then◌else◌}
use arclaunch.Prelude.Map.{Map, lookup}
use arclaunch.Os.{Os, Posix}
use arclaunch.Node.Fds.{Local, close_all, close_fds}

module _ {K : Type 0} {os : Os K} (px : Posix os) where
  pub file-close_all :
      (m : Map ℕ) (k : K) (c : ℕ)
      → px.file (close_all os m k) c ≡ (if is_some (lookup c m) then none else px.file k c)
  unfolding close_all lookup
  file-close_all [] k c = refl
  file-close_all ((n, fd) ∷ m) k c =
      ground (arith, file-close_all m (os.close k n) c, px.close_target k n, px.close_others k n c)

  -- After `closeFds` the node holds no descriptor, each one that it held is closed, and every other
  -- descriptor of the process is as it was.
  pub close_fds_lem :
      (s : Local K)
      → ((close_fds os s).node ≡ record s.node { fd_map = [] })
        × ((c : ℕ)
            → px.file (close_fds os s).kernel c
              ≡ (if is_some (lookup c s.node.fd_map) then none else px.file s.kernel c))
  unfolding close_fds
  close_fds_lem s = (refl, file-close_all s.node.fd_map s.kernel)
