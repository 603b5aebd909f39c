-- ===== src/WsTrans.antt =====
-- examples/ws/src/ws_trans.c.
pub mod Closing
pub mod Forwarding
pub mod Kept
use Prim.Native.Nat.{◌^◌}
use arclaunch.Prelude.{
  ℕ, zero, suc, ◌+◌, ◌≡◌, refl, Bool, true, false, Option, none, some, List, [], ◌∷◌, ◌++◌, Exec,
  Outcome, done, thrown, exited, undefined, no_fuel, ◌>>=◌, ◌>>◌, pure, if◌then◌else◌,
}
use arclaunch.Text.{Text}
use arclaunch.SharedMem.{Shm, open_shared_memory}
use arclaunch.Prelude.Bytes.{le_bytes, le_value}
use arclaunch.WsFrame.{WsFrame, load, store, ws_text}
use arclaunch.WsConnection.{
  Connection, SimpleBuffer, Transport, Peer, ws_tx_frame, ws_rx_frame, make_ws_fd_server_connection,
}
use arclaunch.WsHandlers.{run_handler, ws_simple_clear_buffer, the_buffer}

-- What `select` reports of the standard input and of `in_fd`.
pub record Ready : Type 0 where
  pub stdin : Bool
  pub socket : Bool

module _ {W : Type 0} (io : Transport W) where
  abbrev pub read_fd : ℕ → ℕ → Exec (Peer W) (List ℕ)
  read_fd fd n s = let (bytes, w) = io.read fd n s.world in done bytes (record s { world = w })

  abbrev pub write_fd : ℕ → List ℕ → Exec (Peer W) (Unit {0})
  write_fd fd bytes s = done tt (record s { world = io.write fd bytes s.world })

  unfoldable pub forward_stdin : Exec (Peer W) (Unit {0})
  forward_stdin = do
    word ← read_fd 0 8
    let nbytes = le_value (load 8 0 (store 0 word io.stack))
    bytes ← read_fd 0 nbytes
    ws_tx_frame io ws_text (some (load nbytes 0 (store 0 bytes io.heap))) nbytes

  -- The loop over the received buffers, from the newest to the oldest.
  unfoldable pub write_buffers : List SimpleBuffer → Exec (Peer W) (Unit {0})
  write_buffers [] = pure tt
  write_buffers (b ∷ prev) = do
    write_fd 1 (le_bytes 8 b.nbytes)
    write_fd 1 (load b.nbytes 0 b.content)
    write_buffers prev

  unfoldable pub forward_socket : Exec (Peer W) (Unit {0})
  forward_socket = do
    ws_rx_frame io (run_handler io)
    chain ← the_buffer
    elim chain [
      | [] ↦ pure tt
      | b ∷ prev ↦ (do write_buffers (b ∷ prev); ws_simple_clear_buffer false)
    ]

  unfoldable pub trans_round : Ready → Exec (Peer W) (Unit {0})
  trans_round r = do
    if r.stdin then forward_stdin else pure tt
    if r.socket then forward_socket else pure tt

  -- The loop, with what one `select` after the other reports. `no_fuel` means that it goes on.
  unfoldable pub trans_loop : List Ready → Exec (Peer W) (Unit {0})
  trans_loop [] s = if s.conn.received_close then done tt s else no_fuel
  trans_loop (r ∷ rs) s =
      let rest = trans_loop rs in
      if s.conn.received_close then done tt s else (do trans_round r; rest) s

  -- The loop goes from one state to another in some rounds: before each of them the connection is not
  -- closed, and the round returns.
  pub data Rounds : List Ready → Peer W → Peer W → Type 0 where
    here : {s : Peer W} → Rounds [] s s
    next :
        {r : Ready} {rs : List Ready} {s t u : Peer W}
        → s.conn.received_close ≡ false
        → trans_round r s ≡ done tt t
        → Rounds rs t u
        → Rounds (r ∷ rs) s u

  -- Opens the shared memory; the descriptor is not used.
  unfoldable pub open_memory : Shm W → Text → Exec (Peer W) (Unit {0})
  open_memory shm name s = elim (open_shared_memory shm name s.world) [
    | done fd w ↦ done tt (record s { world = w })
    | thrown e w ↦ thrown e (record s { world = w })
    | exited c w ↦ exited c (record s { world = w })
    | undefined ↦ undefined
    | no_fuel ↦ no_fuel
  ]

  -- Without an argument, argv[1] is a null pointer, from which strcpy reads.
  unfoldable pub main : Shm W → List Text → List Ready → W → Outcome (Peer W) ℕ
  unfolding open_memory
  main shm (program ∷ name ∷ args) rs w =
      (do open_memory shm name; trans_loop rs; ws_simple_clear_buffer true; pure 0)
        (record { conn = make_ws_fd_server_connection 3 4; world = w })
  main shm args rs w = undefined
