-- ===== src/Bridge/Outbound.antt =====
-- `Bridge._loop_can_to_tcp`: messages on the bus become bytes on the peer's socket.
use canopen_tools.Prelude.{ℕ, Bool, List, [], ◌∷◌, ◌++◌, Option, none, some, if◌then◌else◌, take}
use canopen_tools.Outcome.{Exn, Result, ok, raise, is_os_error, is_exception}
use canopen_tools.Frame.{CanMessage, frame_from_can}

-- The outcome of `s.sendall(payload)`: a call that raises may have written a part.
pub data SendAll : Type 0 where
  sent : SendAll
  broken : ℕ → Exn → SendAll

-- What one round of the loop meets: the stop event, the outcome of `bus.recv(timeout=0.2)`, the
-- socket that is installed, if any, and how it takes the bytes. Sockets are numbered.
pub record Round (M : Type 0) : Type 0 where
  pub stop_set : Bool
  pub recv : Result (Option M)
  pub sock : Option ℕ
  pub send_all : SendAll

-- Each write: the socket and the bytes.
abbrev pub Writes : Type 0
Writes = List (ℕ × List ℕ)

pub data Exit : Type 0 where
  stopped interrupted running : Exit

-- `s.sendall(payload)` within `try … except OSError`.
unfoldable pub send_payload : ℕ → List ℕ → SendAll → Writes → Result (Unit {0}) × Writes
send_payload s payload sent w = (ok tt, w ++ ((s, payload) ∷ []))
send_payload s payload (broken k e) w =
    (if is_os_error e then ok tt else raise e, w ++ ((s, take k payload) ∷ []))

unfoldable pub send_if_connected : Option ℕ → List ℕ → SendAll → Writes → Result (Unit {0}) × Writes
unfolding send_payload
send_if_connected none payload out w = (ok tt, w)
send_if_connected (some s) payload out w = send_payload s payload out w

-- The handlers of the outer `try`: an interrupt ends the loop, any other exception is logged.
unfoldable pub catch_round : (Writes → Exit × Writes) → Result (Unit {0}) × Writes → Exit × Writes
catch_round again (ok u, w) = again w
catch_round again (raise e, w) = if is_exception e then again w else (interrupted, w)

module _ {M : Type 0} (can : CanMessage M) (use_fd_cfg : Bool) where
  unfoldable pub send_frame : Round M → Result (List ℕ) → Writes → Result (Unit {0}) × Writes
  unfolding send_if_connected
  send_frame r (raise e) w = (raise e, w)
  send_frame r (ok payload) w = send_if_connected r.sock payload r.send_all w

  -- The body of the `try`.
  unfoldable pub send_received : Round M → Result (Option M) → Writes → Result (Unit {0}) × Writes
  unfolding send_frame
  send_received r (raise e) w = (raise e, w)
  send_received r (ok none) w = (ok tt, w)
  send_received r (ok (some msg)) w = send_frame r (frame_from_can can msg use_fd_cfg) w

  unfoldable pub loop_can_to_tcp : List (Round M) → Writes → Exit × Writes
  unfolding send_received catch_round
  loop_can_to_tcp [] w = (running, w)
  loop_can_to_tcp (r ∷ rs) w =
      if r.stop_set
      then (stopped, w)
      else catch_round (loop_can_to_tcp rs) (send_received r r.recv w)
