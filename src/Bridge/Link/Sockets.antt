-- ===== src/Bridge/Link/Sockets.antt =====
-- The sockets that `_tcp_manager` of can-tcp-bridge/can-tcp-bridge-server/can_tcp_bridge.py installs
-- and closes.
use canopen_tools.Prelude.{
  ℕ, Bool, ◌≡◌, refl, sym, ap, ◌∙◌, inl, inr, none, some, List, [], ◌∷◌, ◌++◌, append-nil,
  Bool-cases,
}
use canopen_tools.Outcome.{Result, ok, raise, timeout, is_os_error, is_exception}
use canopen_tools.Frame.{CanMessage}
use canopen_tools.Bridge.Inbound.{BusLog, Turn}
use canopen_tools.Bridge.Link.{
  Link, sockets, install, release, Dial, Outcome, dialled, settle_accept, accept_turns, accept_once,
  settle_connect, connect_turns, connect_once, ManagerRound, LinkConfig, dial_once, received,
  after_round, tcp_manager,
}

-- The sockets closed so far, and then the one that is in use, are all that were installed.
abbrev pub IsAccounted : Link → Type 0
IsAccounted st = st.closed ++ sockets st.sock ≡ st.installed

install-IsAccounted : (c : ℕ) (st : Link) → IsAccounted st → IsAccounted (install c st)
unfolding install
install-IsAccounted c st h = ap (λ (l : List ℕ). l ++ (c ∷ [])) h

release-IsAccounted : (st : Link) → IsAccounted st → IsAccounted (release st)
unfolding release
release-IsAccounted st h = append-nil (st.closed ++ sockets st.sock) ∙ h

module _ (keep : Bool) where
  settle_accept-IsAccounted :
      (again : Link → Outcome × Link) (r : Result ℕ) (st : Link)
      → IsAccounted st
      → IsAccounted (again st).1
      → IsAccounted (settle_accept again r st).1
  unfolding settle_accept
  settle_accept-IsAccounted again (ok c) st h later = install-IsAccounted c st h
  settle_accept-IsAccounted again (raise timeout) st h later = later
  settle_accept-IsAccounted again (raise _) st h later = h

  accept_turns-IsAccounted :
      (ds : List Dial) (st : Link) → IsAccounted st → IsAccounted (accept_turns keep ds st).1
  unfolding accept_turns
  accept_turns-IsAccounted [] st h = h
  accept_turns-IsAccounted (d ∷ ds) st h = elim (Bool-cases d.stop_set) [
    | inl set ↦ rw set h
    | inr clear ↦ rw clear (
        settle_accept-IsAccounted (accept_turns keep ds) (dialled keep d) st h
          (accept_turns-IsAccounted ds st h))
  ]

  accept_once-IsAccounted :
      (l : Result (Unit {0})) (ds : List Dial) (st : Link)
      → IsAccounted st
      → IsAccounted (accept_once keep l ds st).1
  unfolding accept_once
  accept_once-IsAccounted (ok u) ds st h = accept_turns-IsAccounted ds st h
  accept_once-IsAccounted (raise e) ds st h = h

  settle_connect-IsAccounted :
      (again : Link → Outcome × Link) (r : Result ℕ) (st : Link)
      → IsAccounted st
      → IsAccounted (again st).1
      → IsAccounted (settle_connect again r st).1
  unfolding settle_connect
  settle_connect-IsAccounted again (ok c) st h later = install-IsAccounted c st h
  settle_connect-IsAccounted again (raise e) st h later = elim (Bool-cases (is_os_error e)) [
    | inl caught ↦ rw caught later
    | inr passed ↦ rw passed h
  ]

  connect_turns-IsAccounted :
      (ds : List Dial) (st : Link) → IsAccounted st → IsAccounted (connect_turns keep ds st).1
  unfolding connect_turns
  connect_turns-IsAccounted [] st h = h
  connect_turns-IsAccounted (d ∷ ds) st h = elim (Bool-cases d.stop_set) [
    | inl set ↦ rw set h
    | inr clear ↦ rw clear (
        settle_connect-IsAccounted (connect_turns keep ds) (dialled keep d) st h
          (connect_turns-IsAccounted ds st h))
  ]

  connect_once-IsAccounted :
      (ready : Result (Unit {0})) (ds : List Dial) (st : Link)
      → IsAccounted st
      → IsAccounted (connect_once keep ready ds st).1
  unfolding connect_once
  connect_once-IsAccounted (ok u) ds st h = connect_turns-IsAccounted ds st h
  connect_once-IsAccounted (raise e) ds st h = h

dial_once-IsAccounted :
    (cfg : LinkConfig) (r : ManagerRound) (st : Link)
    → IsAccounted st
    → IsAccounted (dial_once cfg r st).1
unfolding dial_once
dial_once-IsAccounted cfg r st h = elim (Bool-cases cfg.is_server) [
  | inl server ↦ rw server (accept_once-IsAccounted cfg.tcp_keepalive r.ready r.dials st h)
  | inr client ↦ rw client (connect_once-IsAccounted cfg.tcp_keepalive r.ready r.dials st h)
]

-- What the manager leaves behind: a manager that returned has closed every socket it installed,
-- and any other all but the one in use.
abbrev pub ClosedAt : Outcome → Link → Type 0
ClosedAt (some (ok u)) st = st.closed ≡ st.installed
ClosedAt _ st = IsAccounted st

module _ {M : Type 0} (can : CanMessage M) (send : ℕ → M → Result (Unit {0})) where
  received-IsAccounted :
      (turns : List Turn) (b : BusLog M) (r : Outcome × Link)
      → IsAccounted r.1
      → IsAccounted (received can send turns b r).1.0
  unfolding received
  received-IsAccounted turns b (some (ok u), st) h = h
  received-IsAccounted turns b (some (raise e), st) h = h
  received-IsAccounted turns b (none, st) h = h

  -- All is accounted for, and a manager that returned holds no socket.
  abbrev Settled : Outcome × (Link × BusLog M) → Type 0
  Settled (o, s) = IsAccounted s.0 × (o ≡ some (ok tt) → s.0.sock ≡ none)

  after_round-Settled :
      (again : Link × BusLog M → Outcome × (Link × BusLog M)) (r : Outcome × (Link × BusLog M))
      → IsAccounted r.1.0
      → ((s : Link × BusLog M) → IsAccounted s.0 → s.0.sock ≡ none → Settled (again s))
      → Settled (after_round can send again r)
  unfolding after_round
  after_round-Settled again (none, s) h later = (h, λ e. cc)
  after_round-Settled again (some (ok u), s) h later =
      later (release s.0, s.1) (release-IsAccounted s.0 h) refl
  after_round-Settled again (some (raise e), s) h later = elim (Bool-cases (is_exception e)) [
    | inl caught ↦ rw caught (later (release s.0, s.1) (release-IsAccounted s.0 h) refl)
    | inr passed ↦ rw passed (h, λ e. cc)
  ]

  tcp_manager-Settled :
      (cfg : LinkConfig) (rs : List ManagerRound) (s : Link × BusLog M)
      → IsAccounted s.0
      → s.0.sock ≡ none
      → Settled (tcp_manager can send cfg rs s)
  unfolding tcp_manager
  tcp_manager-Settled cfg [] s h e = (h, λ x. cc)
  tcp_manager-Settled cfg (r ∷ rs) s h e = elim (Bool-cases r.stop_set) [
    | inl set ↦ rw set (h, λ x. e)
    | inr clear ↦ rw clear (
        after_round-Settled (tcp_manager can send cfg rs) _
          (received-IsAccounted r.turns s.1 (dial_once cfg r s.0)
            (dial_once-IsAccounted cfg r s.0 h))
          (tcp_manager-Settled cfg rs))
  ]

  -- From a state with no socket in use and all former ones closed, whatever the blocking calls
  -- answer and whatever role is configured: every socket that `_tcp_manager` ever installs is closed
  -- exactly once and in the order of installation, all but the one in use before the next is
  -- installed, and every one of them when `_tcp_manager` returns.
  pub tcp_manager-ClosedAt :
      (cfg : LinkConfig) (rs : List ManagerRound) (st : Link) (b : BusLog M)
      → st.sock ≡ none
      → st.closed ≡ st.installed
      → ClosedAt (tcp_manager can send cfg rs (st, b)).0 (tcp_manager can send cfg rs (st, b)).1.0
  tcp_manager-ClosedAt cfg rs st b no_socket all_closed =
      split (tcp_manager can send cfg rs (st, b)).0 (tcp_manager can send cfg rs (st, b)).1 (
        tcp_manager-Settled cfg rs (st, b)
          (ap (λ o. st.closed ++ sockets o) no_socket ∙ append-nil st.closed ∙ all_closed)
          no_socket)
    where
      split : (o : Outcome) (s : Link × BusLog M) → Settled (o, s) → ClosedAt o s.0
      split (some (ok u)) s (h, e) =
          sym (append-nil s.0.closed) ∙ ap (λ o. s.0.closed ++ sockets o) (sym (e refl)) ∙ h
      split (some (raise x)) s (h, e) = h
      split none s (h, e) = h
