-- ===== src/Bridge/Link.antt =====
-- The connections of `Bridge` in can-tcp-bridge/can-tcp-bridge-server/can_tcp_bridge.py:
-- `_tcp_manager`, `_accept_once` and `_connect_once` over the outcomes of their blocking calls.
use canopen_tools.Prelude.{ℕ, Bool, Option, none, some, List, [], ◌∷◌, ◌++◌, if◌then◌else◌}
use canopen_tools.Outcome.{Result, ok, raise, timeout, is_os_error, is_exception, ◌>>◌}
use canopen_tools.Frame.{CanMessage}
use canopen_tools.Bridge.Inbound.{
  BusLog, Inbound, Turn, Ended, stopped, no_sock, waiting, failed, loop_tcp_to_can,
}
pub mod Sockets
pub mod Dialling

-- `self.sock`, as the number of a socket, with the sockets that were assigned to it and those on
-- which it was closed, in order.
pub record Link : Type 0 where
  pub sock : Option ℕ
  pub installed : List ℕ
  pub closed : List ℕ

abbrev pub sockets : Option ℕ → List ℕ
sockets none = []
sockets (some c) = c ∷ []

-- `if self.sock: self.sock.close()`, whose errors are dropped, and the assignment.
unfoldable pub install : ℕ → Link → Link
install c st = record {
  sock = some c;
  installed = st.installed ++ (c ∷ []);
  closed = st.closed ++ sockets st.sock;
}

-- The end of a round of `_tcp_manager`: the socket is closed and forgotten.
unfoldable pub release : Link → Link
release st = record { sock = none; installed = st.installed; closed = st.closed ++ sockets st.sock }

pub data SocketOption : Type 0 where
  so_keepalive tcp_keepidle tcp_keepintvl tcp_keepcnt : SocketOption

-- What a platform has of the module `socket`, and what `setsockopt` of a new socket gives.
pub record SocketOptions : Type 0 where
  pub has : SocketOption → Bool
  pub setsockopt : SocketOption → ℕ → Result (Unit {0})

-- `if hasattr(socket, …):`
unfoldable pub set_if_known : SocketOptions → SocketOption → ℕ → Result (Unit {0})
set_if_known host option value = if host.has option then host.setsockopt option value else ok tt

unfoldable pub set_tcp_keepalive : SocketOptions → Result (Unit {0})
unfolding set_if_known
set_tcp_keepalive host =
    host.setsockopt so_keepalive 1
    >> set_if_known host tcp_keepidle 30
    >> set_if_known host tcp_keepintvl 10
    >> set_if_known host tcp_keepcnt 3

-- A round of `_accept_once` or `_connect_once`: whether `stop_event` is set, the socket that the
-- call made or its error, and what that socket answers to its options.
pub record Dial : Type 0 where
  pub stop_set : Bool
  pub made : Result ℕ
  pub host : SocketOptions

-- `none` is a call that still blocks when the entries are used up.
abbrev pub Outcome : Type 0
Outcome = Option (Result (Unit {0}))

-- `tcp_keepalive` of the configuration decides whether `set_tcp_keepalive` is called.
unfoldable pub dialled : Bool → Dial → Result ℕ
unfolding set_tcp_keepalive
dialled keep d = if keep then made_and_kept d.made else d.made
  where
    made_and_kept : Result ℕ → Result ℕ
    made_and_kept (ok c) = set_tcp_keepalive d.host >> ok c
    made_and_kept (raise e) = raise e

-- `except socket.timeout: continue`
unfoldable pub settle_accept : (Link → Outcome × Link) → Result ℕ → Link → Outcome × Link
unfolding install
settle_accept again (ok c) st = (some (ok tt), install c st)
settle_accept again (raise timeout) st = again st
settle_accept again (raise e) st = (some (raise e), st)

unfoldable pub accept_turns : Bool → List Dial → Link → Outcome × Link
unfolding dialled settle_accept
accept_turns keep [] st = (none, st)
accept_turns keep (d ∷ ds) st =
    let rest = accept_turns keep ds in
    if d.stop_set then (some (ok tt), st) else settle_accept rest (dialled keep d) st

-- `ready` is the outcome of `int(...)` on the port, `bind` and `listen`.
unfoldable pub accept_once : Bool → Result (Unit {0}) → List Dial → Link → Outcome × Link
unfolding accept_turns
accept_once keep (ok u) ds st = accept_turns keep ds st
accept_once keep (raise e) ds st = (some (raise e), st)

-- `except OSError`: logged, and tried again after a pause. The delay is a number: `_tcp_manager` has
-- read the same setting before its first round.
unfoldable pub settle_connect : (Link → Outcome × Link) → Result ℕ → Link → Outcome × Link
unfolding install
settle_connect again (ok c) st = (some (ok tt), install c st)
settle_connect again (raise e) st = if is_os_error e then again st else (some (raise e), st)

unfoldable pub connect_turns : Bool → List Dial → Link → Outcome × Link
unfolding dialled settle_connect
connect_turns keep [] st = (none, st)
connect_turns keep (d ∷ ds) st =
    let rest = connect_turns keep ds in
    if d.stop_set then (some (ok tt), st) else settle_connect rest (dialled keep d) st

-- `ready` is the outcome of `int(...)` on the port.
unfoldable pub connect_once : Bool → Result (Unit {0}) → List Dial → Link → Outcome × Link
unfolding connect_turns
connect_once keep (ok u) ds st = connect_turns keep ds st
connect_once keep (raise e) ds st = (some (raise e), st)

-- A round of `_tcp_manager`; `ready` is what comes before the loop of the method that dials.
pub record ManagerRound : Type 0 where
  pub stop_set : Bool
  pub ready : Result (Unit {0})
  pub dials : List Dial
  pub turns : List Turn

-- `role` and `tcp_keepalive` of the configuration.
pub record LinkConfig : Type 0 where
  pub is_server : Bool
  pub tcp_keepalive : Bool

unfoldable pub dial_once : LinkConfig → ManagerRound → Link → Outcome × Link
unfolding accept_once connect_once
dial_once cfg r st =
    if cfg.is_server
    then accept_once cfg.tcp_keepalive r.ready r.dials st
    else connect_once cfg.tcp_keepalive r.ready r.dials st

module _ {M : Type 0} (can : CanMessage M) (send : ℕ → M → Result (Unit {0})) where
  -- How `_loop_tcp_to_can` hands control back: its handlers are `except OSError` and
  -- `except Exception`.
  abbrev pub outcome_of : Ended → Outcome
  outcome_of waiting = none
  outcome_of stopped = some (ok tt)
  outcome_of no_sock = some (ok tt)
  outcome_of (failed e) = if is_exception e then some (ok tt) else some (raise e)

  -- The body of the `try`: once a socket was dialled, its bytes are received.
  unfoldable pub received : List Turn → BusLog M → Outcome × Link → Outcome × (Link × BusLog M)
  unfolding loop_tcp_to_can
  received turns b (some (ok u), st) =
      let run = loop_tcp_to_can can send turns b in (outcome_of run.0, (st, run.1.log))
  received turns b (o, st) = (o, (st, b))

  -- `except Exception`: logged; the socket is closed either way, and the next round follows.
  unfoldable pub after_round :
      (Link × BusLog M → Outcome × (Link × BusLog M))
      → Outcome × (Link × BusLog M)
      → Outcome × (Link × BusLog M)
  unfolding release
  after_round again (none, s) = (none, s)
  after_round again (some (ok u), s) = again (release s.0, s.1)
  after_round again (some (raise e), s) =
      if is_exception e then again (release s.0, s.1) else (some (raise e), s)

  -- From the loop on, once `float(...)` read the delay. The pauses between two rounds change nothing.
  unfoldable pub tcp_manager :
      LinkConfig → List ManagerRound → Link × BusLog M → Outcome × (Link × BusLog M)
  unfolding dial_once received after_round
  tcp_manager cfg [] s = (none, s)
  tcp_manager cfg (r ∷ rs) s =
      let rest = tcp_manager cfg rs in
      if r.stop_set
      then (some (ok tt), s)
      else after_round rest (received r.turns s.1 (dial_once cfg r s.0))
