-- ===== src/Node/Fds.antt =====
-- src/Node.cxx: the file descriptors that a node holds for its next instance. `fd_map` takes each
-- descriptor that arclaunch holds to its number in the instance.
pub mod Link
pub mod Close
pub mod Overwrite
pub mod Pass
pub mod Access
use Prim.Native.Nat.{bit_and}
use arclaunch.Prelude.{
  ℕ, zero, suc, ◌+◌, Bool, true, false, ◌||◌, List, [], ◌∷◌, Exec, Outcome, done, thrown, exited,
  no_fuel, undefined, plain, ◌>>=◌, ◌>>◌, pure, throw, ◌==◌, if◌then◌else◌,
}
use arclaunch.Prelude.Map.{Map, insert}
use arclaunch.Os.{Os, Reply, success, busy, failed}
use arclaunch.Node.{Node}

-- A node and the kernel, as its own methods see them.
pub record Local (K : Type 0) : Type 0 where
  pub node : Node
  pub kernel : K

abbrev pub o_rdonly : ℕ
o_rdonly = 0

abbrev pub o_wronly : ℕ
o_wronly = 1

abbrev pub o_rdwr : ℕ
o_rdwr = 2

-- O_RDONLY | O_WRONLY | O_RDWR
abbrev pub access_mask : ℕ
access_mask = 3

module _ {K : Type 0} (os : Os K) where
  unfoldable pub is_readable : K → ℕ → Bool
  is_readable k fd =
      let file_flags = bit_and (os.status_flags k fd) access_mask in
      file_flags == o_rdonly || file_flags == o_rdwr

  unfoldable pub is_writable : K → ℕ → Bool
  is_writable k fd =
      let file_flags = bit_and (os.status_flags k fd) access_mask in
      file_flags == o_wronly || file_flags == o_rdwr

  -- The loop of `linkFd`; its result is `nFd`.
  unfoldable pub link_loop : ℕ → ℕ → ℕ → Exec K ℕ
  link_loop zero n_fd ext_fd k = no_fuel
  link_loop (suc fuel) n_fd ext_fd k = elim (os.is_open k n_fd) [
    | true ↦ link_loop fuel (n_fd + 1) ext_fd k
    | false ↦ elim (os.dup3 k ext_fd n_fd) [
      | success k' ↦ done n_fd k'
      | busy k' ↦ link_loop fuel (n_fd + 1) ext_fd k'
      | failed k' ↦ thrown plain k'
    ]
  ]

  unfoldable pub link_fd : ℕ → ℕ → ℕ → Exec (Local K) (Unit {0})
  unfolding link_loop
  link_fd fuel fd ext_fd s = elim (link_loop fuel (fd + 1) ext_fd s.kernel) [
    | done n_fd k ↦
        done tt
          (record { node = record s.node { fd_map = insert n_fd fd s.node.fd_map }; kernel = k })
    | thrown e k ↦ thrown e (record s { kernel = k })
    | exited c k ↦ exited c (record s { kernel = k })
    | undefined ↦ undefined
    | no_fuel ↦ no_fuel
  ]

  unfoldable pub link_stdin : ℕ → ℕ → Exec (Local K) (Unit {0})
  unfolding link_fd is_readable
  link_stdin fuel fd s = if is_readable s.kernel fd then link_fd fuel 0 fd s else throw plain s

  unfoldable pub link_stdout : ℕ → ℕ → Exec (Local K) (Unit {0})
  unfolding link_fd is_writable
  link_stdout fuel fd s = if is_writable s.kernel fd then link_fd fuel 1 fd s else throw plain s

  unfoldable pub link_stderr : ℕ → ℕ → Exec (Local K) (Unit {0})
  unfolding link_fd is_writable
  link_stderr fuel fd s = if is_writable s.kernel fd then link_fd fuel 2 fd s else throw plain s

  unfoldable pub close_all : Map ℕ → K → K
  close_all [] k = k
  close_all ((n_fd, fd) ∷ m) k = close_all m (os.close k n_fd)

  unfoldable pub close_fds : Local K → Local K
  unfolding close_all
  close_fds s = record {
    node = record s.node { fd_map = [] };
    kernel = close_all s.node.fd_map s.kernel;
  }

  -- In the forked process. The message on its standard error is left out.
  unfoldable pub overwrite_fds : Map ℕ → Exec K (Unit {0})
  overwrite_fds [] k = done tt k
  overwrite_fds ((n_fd, fd) ∷ m) k = elim (os.dup2 k n_fd fd) [
    | success k' ↦ overwrite_fds m k'
    | busy k' ↦ exited 1 k'
    | failed k' ↦ exited 1 k'
  ]

  -- The map is the parent's, the state the child's.
  unfoldable pub pass_fds : ℕ → Map ℕ → Exec (Local K) (Unit {0})
  unfolding link_fd
  pass_fds fuel [] = pure tt
  pass_fds fuel ((n_fd, fd) ∷ m) = do link_fd fuel fd n_fd; pass_fds fuel m

  unfoldable pub pass_fd : ℕ → Map ℕ → ℕ → ℕ → Exec (Local K) (Unit {0})
  unfolding link_fd
  pass_fd fuel [] fd child_fd = pure tt
  pass_fd fuel ((n_fd, fd') ∷ m) fd child_fd =
      if fd' == fd then link_fd fuel child_fd n_fd else pass_fd fuel m fd child_fd
