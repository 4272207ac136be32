-- ===== src/Tests/Link.antt =====
-- The connections of the bridge at concrete inputs.
use canopen_tools.Prelude.{ℕ, true, false, ◌≡◌, refl, none, some, List, [], ◌∷◌}
use canopen_tools.Outcome.{Result, ok, raise, timeout, connection_error}
use canopen_tools.Frame.{MessageArgs}
use canopen_tools.Tests.Plain.{plain}
use canopen_tools.Bridge.EndToEnd.{accepts_all}
use canopen_tools.Bridge.Inbound.{BusLog, Turn}
use canopen_tools.Bridge.Link.{
  Link, SocketOptions, tcp_keepcnt, install, Dial, dialled, accept_once, connect_once, ManagerRound,
  LinkConfig, tcp_manager,
}
use canopen_tools.Bridge.Link.Sockets.{ClosedAt, tcp_manager-ClosedAt}
use canopen_tools.Bridge.Link.Dialling.{nil, cons, dial-after_failures}

abbrev fresh : Link
fresh = record { sock = none; installed = []; closed = [] }

abbrev quiet_bus : BusLog MessageArgs
quiet_bus = record { calls = 0; taken = [] }

-- A platform without the last option, on which all others can be set.
abbrev sets_all : SocketOptions
sets_all = record {
  has = λ option. elim option [ tcp_keepcnt ↦ false | _ ↦ true ];
  setsockopt = λ option value. ok tt;
}

abbrev dial : Result ℕ → Dial
dial r = record { stop_set = false; made = r; host = sets_all }

abbrev hung_up : Turn
hung_up = record { stop_set = false; has_sock = true; recv = ok [] }

-- A round that dials and then meets the end of the stream.
abbrev calling : List Dial → ManagerRound
calling ds = record { stop_set = false; ready = ok tt; dials = ds; turns = hung_up ∷ [] }

abbrev stopping : ManagerRound
stopping = record { stop_set = true; ready = ok tt; dials = []; turns = [] }

abbrev server : LinkConfig
server = record { is_server = true; tcp_keepalive = true }

-- Socket 3 is accepted after a timeout, and socket 4 in the round after it; then a stop is asked for.
abbrev two_calls : List ManagerRound
two_calls =
    calling (dial (raise timeout) ∷ dial (ok 3) ∷ []) ∷ calling (dial (ok 4) ∷ []) ∷ stopping ∷ []

two_calls_close_both :
    (tcp_manager plain accepts_all server two_calls (fresh, quiet_bus)).1.0
    ≡ record { sock = none; installed = 3 ∷ 4 ∷ []; closed = 3 ∷ 4 ∷ [] }
unfolding tcp_manager
two_calls_close_both = refl

tcp_manager-ClosedAt_example :
    ClosedAt
      (tcp_manager plain accepts_all server two_calls (fresh, quiet_bus)).0
      (tcp_manager plain accepts_all server two_calls (fresh, quiet_bus)).1.0
tcp_manager-ClosedAt_example =
    tcp_manager-ClosedAt plain accepts_all server two_calls fresh quiet_bus refl refl

dial-after_failures_example :
    (accept_once true (ok tt) (dial (raise timeout) ∷ dial (ok 3) ∷ []) fresh
      ≡ (some (ok tt), install 3 fresh))
    × (connect_once true (ok tt) (dial (raise connection_error) ∷ dial (ok 3) ∷ []) fresh
        ≡ (some (ok tt), install 3 fresh))
unfolding dialled
dial-after_failures_example =
    dial-after_failures true (dial (raise timeout) ∷ []) (dial (raise connection_error) ∷ [])
      (dial (ok 3)) [] 3 fresh (cons timeout refl refl refl nil)
      (cons connection_error refl refl refl nil) refl refl
