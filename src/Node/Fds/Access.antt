-- ===== src/Node/Fds/Access.antt =====
-- What `linkStdin`, `linkStdout` and `linkStderr` check.
use arclaunch.Prelude.{ℕ, ◌≡◌, none, false, thrown, plain}
use arclaunch.Os.{Os, Posix}
use arclaunch.Node.Fds.{Local, is_readable, is_writable, link_stdin, link_stdout, link_stderr}

module _ {K : Type 0} {os : Os K} (px : Posix os) where
  closed-is_readable : (k : K) (fd : ℕ) → px.file k fd ≡ none → is_readable os k fd ≡ false
  unfolding is_readable
  closed-is_readable k fd e = rw (px.flags_closed k fd e)

  closed-is_writable : (k : K) (fd : ℕ) → px.file k fd ≡ none → is_writable os k fd ≡ false
  unfolding is_writable
  closed-is_writable k fd e = rw (px.flags_closed k fd e)

  -- A closed descriptor is refused as standard input, output and error, with an exception and with
  -- the node and the kernel as they were.
  pub link_std_closed :
      (fuel fd : ℕ) (s : Local K)
      → px.file s.kernel fd ≡ none
      → (link_stdin os fuel fd s ≡ thrown plain s)
        × (link_stdout os fuel fd s ≡ thrown plain s)
        × (link_stderr os fuel fd s ≡ thrown plain s)
  unfolding link_stdin link_stdout link_stderr
  link_std_closed fuel fd s e = (
    rw (closed-is_readable s.kernel fd e),
    rw (closed-is_writable s.kernel fd e),
    rw (closed-is_writable s.kernel fd e),
  )
