-- ===== src/Client.antt =====
-- The program of examples/3_ps/src/client.c, which copies what a service sends to its standard
-- output. The calls of the system are a record of operations on its state `W`; a call that returns
-- -1 answers none. What the calls of `select` answer is a list.
pub mod Copies
use arclaunch.Prelude.{
  ℕ, Option, none, some, List, [], ◌∷◌, Exec, done, Outcome, no_fuel, String, Bool, true, false,
  ◌&&◌, if◌then◌else◌, ◌⊎◌, inl, inr,
}
use arclaunch.Text.{Text, codes}

-- getaddrinfo: the first address, or an error code.
pub data Lookup : Type 0 where
  resolved : (address : ℕ) → Lookup
  gai_error : (code : ℕ) → Lookup

pub record Calls (W : Type 0) : Type 0 where
  pub getaddrinfo : Text → Text → W → Lookup × W
  pub gai_strerror : ℕ → Text
  pub freeaddrinfo : ℕ → W → W
  pub socket : W → Option ℕ × W
  pub connect : ℕ → ℕ → W → Bool × W
  pub read : ℕ → ℕ → W → Option (List ℕ) × W
  pub write : ℕ → List ℕ → W → Option ℕ × W
  pub close : ℕ → W → W

-- select: 0, -1, or a positive number with what FD_ISSET says of the socket if it was in the set.
pub data Selected : Type 0 where
  timed_out select_failed : Selected
  ready : (is_set : Bool) → Selected

module _ {W : Type 0} (calls : Calls W) where
  unfoldable pub write_err_msg : Text → W → W
  write_err_msg msg w = (calls.write 2 msg w).1

  unfoldable failed : String → Exec W ℕ
  failed msg w = done 1 (write_err_msg (codes msg) w)

  -- What `read` has returned is written. The answer says whether the socket stays in the set, or
  -- with which message the program ends.
  unfoldable written : ℕ → List ℕ → Option ℕ × W → (String ⊎ Bool) × W
  written fd bytes (none, w) = (inl "An error occurred while writing\n", w)
  written fd [] (some n, w) = (inr false, calls.close fd w)
  written fd (b ∷ bytes) (some n, w) = (inr true, w)

  unfoldable pub copied : ℕ → Option (List ℕ) × W → (String ⊎ Bool) × W
  unfolding written
  copied fd (none, w) = (inl "An error occurred while reading\n", w)
  copied fd (some bytes, w) = written fd bytes (calls.write 1 bytes w)

  unfoldable carry_on : (Bool → Exec W ℕ) → (String ⊎ Bool) × W → Outcome W ℕ
  unfolding failed
  carry_on next (inl msg, w) = failed msg w
  carry_on next (inr keep, w) = next keep w

  -- The loop; `watched` says whether the socket is in the set.
  unfoldable pub client_loop : ℕ → Bool → List Selected → Exec W ℕ
  unfolding failed copied carry_on
  client_loop fd watched [] w = no_fuel
  client_loop fd watched (timed_out ∷ answers) w = done 0 (calls.close fd w)
  client_loop fd watched (select_failed ∷ answers) w = failed "An error occurred while waiting\n" w
  client_loop fd watched (ready is_set ∷ answers) w =
      let next = λ (keep : Bool). client_loop fd keep answers in
      let has_data = watched && is_set in
      if has_data then carry_on next (copied fd (calls.read fd 512 w)) else next false w

  con_failed : Exec W ℕ
  unfolding failed
  con_failed w = failed "An error occurred while connecting to the service\n" w

  unfoldable pub connected : ℕ → ℕ → List Selected → Bool × W → Outcome W ℕ
  unfolding con_failed client_loop
  connected fd address answers (false, w) = con_failed w
  connected fd address answers (true, w) =
      client_loop fd true answers (calls.freeaddrinfo address w)

  -- connect(-1, ..) fails with EBADF.
  unfoldable pub opened : ℕ → List Selected → Option ℕ × W → Outcome W ℕ
  unfolding con_failed connected
  opened address answers (none, w) = con_failed w
  opened address answers (some fd, w) = connected fd address answers (calls.connect fd address w)

  unfoldable pub looked_up : List Selected → Lookup × W → Outcome W ℕ
  unfolding opened
  looked_up answers (gai_error n, w) = done 1 (
      write_err_msg (codes "\n") (
        write_err_msg (calls.gai_strerror n)
          (write_err_msg (codes "An error occurred while interpretting the service\n") w)))
  looked_up answers (resolved address, w) = opened address answers (calls.socket w)

  unfoldable pub client_main : List Text → List Selected → Exec W ℕ
  unfolding failed looked_up
  client_main (program ∷ node ∷ service ∷ args) answers w =
      looked_up answers (calls.getaddrinfo node service w)
  client_main args answers w = failed "node and service must be provided\n" w
