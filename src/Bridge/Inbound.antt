-- ===== src/Bridge/Inbound.antt =====
-- `Bridge._loop_tcp_to_can`: bytes from the peer's socket become messages on the bus.
use canopen_tools.Prelude.{
  ℕ, zero, suc, Bool, not, List, [], ◌∷◌, ◌++◌, Option, none, some, if◌then◌else◌, length,
}
use canopen_tools.Outcome.{Exn, Result, ok, raise, can_error, connection_error}
use canopen_tools.Frame.{CanMessage, can_from_frame}
use canopen_tools.Framer
use canopen_tools.Framer.{Framer, feed, next_record}

-- How often `bus.send` has been called, and the messages that it took.
pub record BusLog (M : Type 0) : Type 0 where
  pub calls : ℕ
  pub taken : List M

pub record Inbound (M : Type 0) : Type 0 where
  pub framer : Framer
  pub log : BusLog M

-- What one round of the loop meets: the stop event, whether a socket is installed, and the outcome
-- of `s.recv(4096)`.
pub record Turn : Type 0 where
  pub stop_set : Bool
  pub has_sock : Bool
  pub recv : Result (List ℕ)

-- Why the loop ended; `waiting` is a loop that is still in `recv` when the entries are used up.
pub data Ended : Type 0 where
  stopped no_sock waiting : Ended
  failed : Exn → Ended

-- `except can.CanError`: logged, and the loop goes on.
unfoldable pub catch_can_error :
    {M : Type 0} → Result (Unit {0}) × BusLog M → Result (Unit {0}) × BusLog M
catch_can_error (raise can_error, b) = (ok tt, b)
catch_can_error (r, b) = (r, b)

module _ {M : Type 0} (can : CanMessage M) (send : ℕ → M → Result (Unit {0})) where
  -- `self.bus.send(msg)`
  unfoldable pub send_message : M → BusLog M → Result (Unit {0}) × BusLog M
  send_message msg b = elim (send b.calls msg) [
    | ok u ↦ (ok tt, record { calls = suc b.calls; taken = b.taken ++ (msg ∷ []) })
    | raise e ↦ (raise e, record { calls = suc b.calls; taken = b.taken })
  ]

  -- The body of the inner loop, within `try … except can.CanError`.
  unfoldable pub forward_record : List ℕ → BusLog M → Result (Unit {0}) × BusLog M
  unfolding send_message catch_can_error
  forward_record rec b =
      catch_can_error
        (elim (can_from_frame can rec) [ ok msg ↦ send_message msg b | raise e ↦ (raise e, b) ])

  -- An exception that the inner `try` does not catch leaves the inner loop.
  unfoldable pub unless_raised :
      (BusLog M → Result (Unit {0}) × Inbound M)
      → Framer
      → Result (Unit {0}) × BusLog M
      → Result (Unit {0}) × Inbound M
  unless_raised again g (ok u, b) = again b
  unless_raised again g (raise e, b) = (raise e, record { framer = g; log = b })

  unfoldable pub forward_found :
      (Inbound M → Result (Unit {0}) × Inbound M)
      → BusLog M
      → Option (List ℕ) × Framer
      → Result (Unit {0}) × Inbound M
  unfolding forward_record unless_raised
  forward_found again b (none, g) = (ok tt, record { framer = g; log = b })
  forward_found again b (some rec, g) =
      unless_raised (λ c. again (record { framer = g; log = c })) g (forward_record rec b)

  -- `while True: rec = framer.next_record() …`, on fuel.
  unfoldable pub forward_records : ℕ → Inbound M → Result (Unit {0}) × Inbound M
  unfolding forward_found
  forward_records zero st = (ok tt, st)
  forward_records (suc fuel) st =
      forward_found (forward_records fuel) st.log (next_record st.framer)

  -- Both handlers of the outer `try` leave the loop.
  unfoldable pub or_break :
      (Inbound M → Ended × Inbound M) → Result (Unit {0}) × Inbound M → Ended × Inbound M
  or_break again (ok u, st) = again st
  or_break again (raise e, st) = (failed e, st)

  -- The framer holds `length buf` bytes, and each record takes two at least.
  unfoldable pub take_chunk :
      (Inbound M → Ended × Inbound M) → Result (List ℕ) → Inbound M → Ended × Inbound M
  unfolding forward_records or_break
  take_chunk again (raise e) st = (failed e, st)
  take_chunk again (ok []) st = (failed connection_error, st)
  take_chunk again (ok (x ∷ xs)) st =
      let f = feed st.framer (x ∷ xs) in
      or_break again (forward_records (length f.buf) (record { framer = f; log = st.log }))

  unfoldable pub take_turn : (Inbound M → Ended × Inbound M) → Turn → Inbound M → Ended × Inbound M
  unfolding take_chunk
  take_turn again t st =
      if t.stop_set
      then (stopped, st)
      else if not t.has_sock
      then (no_sock, st)
      else take_chunk again t.recv st

  unfoldable pub receive_turns : List Turn → Inbound M → Ended × Inbound M
  unfolding take_turn
  receive_turns [] st = (waiting, st)
  receive_turns (t ∷ ts) st = take_turn (receive_turns ts) t st

  -- Each connection begins with an empty framer.
  unfoldable pub loop_tcp_to_can : List Turn → BusLog M → Ended × Inbound M
  unfolding receive_turns
  loop_tcp_to_can turns b = receive_turns turns (record { framer = Framer.empty; log = b })
