-- ===== src/Os.antt =====
-- The system calls on file descriptors that Node.cxx makes. The kernel is not part of the program:
-- its state is a parameter `K`, its calls are the operations of `Os`, and what the program relies
-- on, as the manual pages state it, is `Posix`. Os/Table.antt meets it.
pub mod Table
use arclaunch.Prelude.{ℕ, ◌≤◌, ◌<◌, ◌≡◌, ◌≢◌, Bool, true, false, Option, none, some, is_some, List}
use arclaunch.Text.{Text}

-- What `dup2` and `dup3` answer: success, -1 with EBUSY, or -1 with another error.
pub data Reply (K : Type 0) : Type 0 where
  success busy failed : K → Reply K

-- fork() in the parent, and pipe2(link, O_CLOEXEC) with the ends `link[0]` and `link[1]`.
pub data Forked (K : Type 0) : Type 0 where
  parent : (pid : ℕ) → K → Forked K
  fork_failed : K → Forked K

pub data Piped (K : Type 0) : Type 0 where
  piped : (read_end write_end : ℕ) → K → Piped K
  pipe_failed : K → Piped K

-- An address of a list that getaddrinfo makes is a number. `none` is the answer -1.
pub record Net (K : Type 0) : Type 0 where
  pub socket : K → ℕ → Option ℕ × K
  pub bind : K → Option ℕ → ℕ → K
  pub listen : K → Option ℕ → ℕ → K
  pub accept4 : K → ℕ → Option ℕ × K
  -- getaddrinfo(address, service, hint): `none` is an error
  pub getaddrinfo : Text → Option Text → Option (List ℕ)

-- One answer of `select`: the number, which is `none` for -1, the descriptors that stay in the set,
-- and what the loop then reads of `keep`, which another thread may have changed.
pub record Selected : Type 0 where
  pub num_acc_sock : Option ℕ
  pub ready : ℕ → Bool
  pub keep : Bool

pub record Os (K : Type 0) : Type 0 where
  -- fcntl(fd, F_GETFD) != -1
  pub is_open : K → ℕ → Bool
  -- fcntl(fd, F_GETFL), as a 32-bit pattern
  pub status_flags : K → ℕ → ℕ
  -- dup3(from, to, O_CLOEXEC)
  pub dup3 : K → ℕ → ℕ → Reply K
  -- dup2(from, to)
  pub dup2 : K → ℕ → ℕ → Reply K
  pub close : K → ℕ → K
  pub pipe2 : K → Piped K
  pub fork : K → Forked K
  -- What an int field that held `n` reads as after its object has been destroyed. C++ leaves this
  -- undefined; memory that the allocator has not touched still reads as `n`.
  pub freed : ℕ → ℕ
  -- The calls on sockets.
  pub net : Net K
  -- What `select` answers to the accepting thread of a node from a state on, while it is joined.
  pub selects : K → ℕ → List Selected

module _ {K : Type 0} where
  -- Two kernel states with the same open file behind every descriptor.
  abbrev pub Same : (K → ℕ → Option ℕ) → K → K → Type 0
  Same file k k' = (c : ℕ) → file k' c ≡ file k c

  -- `k'` is `k` but for the descriptor `b`, which shares the open file of `a`.
  pub record Dups (file : K → ℕ → Option ℕ) (k : K) (a b : ℕ) (k' : K) : Type 0 where
    pub source : file k a ≢ none
    pub target : file k' b ≡ file k a
    pub others : (c : ℕ) → c ≢ b → file k' c ≡ file k c

  abbrev pub Answers : (K → ℕ → Option ℕ) → K → ℕ → ℕ → Reply K → Type 0
  Answers file k a b (success k') = Dups file k a b k'
  Answers file k a b (busy k') = Same file k k'
  Answers file k a b (failed k') = Same file k k'

  -- Only a descriptor below the limit can be the target: any other is EBADF.
  abbrev pub InLimit : ℕ → ℕ → Reply K → Type 0
  InLimit limit b (success k') = b < limit
  InLimit limit b (busy k') = b < limit
  InLimit limit b (failed k') = Unit {0}

  -- Both ends of a new pipe were closed descriptors, and no other descriptor changes.
  abbrev pub Pipes : (K → ℕ → Option ℕ) → K → Piped K → Type 0
  Pipes file k (piped r w k') =
      (r ≢ w)
      × (file k r ≡ none)
      × (file k w ≡ none)
      × (file k' r ≢ none)
      × (file k' w ≢ none)
      × ((c : ℕ) → c ≢ r → c ≢ w → file k' c ≡ file k c)
  Pipes file k (pipe_failed k') = Same file k k'

  abbrev pub Forks : (K → ℕ → Option ℕ) → K → Forked K → Type 0
  Forks file k (parent pid k') = Same file k k'
  Forks file k (fork_failed k') = Same file k k'

-- `file` is the open file behind a descriptor, if it is open.
pub record Posix {K : Type 0} (os : Os K) : Type 0 where
  pub file : K → ℕ → Option ℕ
  pub limit : ℕ
  pub open_lem : (k : K) (c : ℕ) → os.is_open k c ≡ is_some (file k c)
  pub open-limit : (k : K) (c : ℕ) → file k c ≢ none → c < limit
  pub flags_closed : (k : K) (c : ℕ) → file k c ≡ none → os.status_flags k c ≡ 0xffffffff
  pub dup3_lem : (k : K) (a b : ℕ) → Answers file k a b (os.dup3 k a b)
  pub dup3-limit : (k : K) (a b : ℕ) → InLimit limit b (os.dup3 k a b)
  pub dup2_lem : (k : K) (a b : ℕ) → Answers file k a b (os.dup2 k a b)
  pub close_target : (k : K) (a : ℕ) → file (os.close k a) a ≡ none
  pub close_others : (k : K) (a c : ℕ) → c ≢ a → file (os.close k a) c ≡ file k c
  pub pipe2_lem : (k : K) → Pipes file k (os.pipe2 k)
  pub fork_lem : (k : K) → Forks file k (os.fork k)
