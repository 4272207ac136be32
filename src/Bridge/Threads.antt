-- ===== src/Bridge/Threads.antt =====
-- The two threads of `Bridge` in can-tcp-bridge/can-tcp-bridge-server/can_tcp_bridge.py that change
-- its state when it ends, an access at a time: that of `_tcp_manager`, and the main thread in `stop`.
use canopen_tools.Prelude.{
  ℕ, zero, suc, Bool, true, false, ◌≡◌, Option, none, some, List, [], ◌∷◌, ◌++◌,
}
use canopen_tools.Bridge.Link.{sockets}
pub mod Shuts
pub mod Ends

-- `self.stop_event` and `self.sock`, with the sockets that the manager made and those that it closed,
-- both in order, and those that `stop` shut down or closed, the latest first.
pub record Shared : Type 0 where
  pub stop_event : Bool
  pub sock : Option ℕ
  pub made : List ℕ
  pub closed : List ℕ
  pub shut : List ℕ
  pub stop_closed : List ℕ

-- Where `_tcp_manager` stands, with the socket that a local variable holds.
pub data ManagerAt : Type 0 where
  deciding : ManagerAt  -- head of the loop in `_tcp_manager`
  dialling : ManagerAt  -- head of the loop in `_accept_once` or `_connect_once`
  calling : ManagerAt  -- in `accept` or `create_connection`
  installing : ℕ → ManagerAt  -- before `with self.sock_lock`, with a connection
  replacing : ℕ → ManagerAt  -- before `self.sock = conn`
  serving : ManagerAt  -- head of the loop in `_loop_tcp_to_can`
  taking : ManagerAt  -- before `s = self.sock`
  reading : ℕ → ManagerAt  -- in `s.recv`, or at the records that it gave
  leaving : ManagerAt  -- before the `with self.sock_lock` of `_tcp_manager`
  forgetting : ManagerAt  -- before `self.sock = None`
  pausing : ManagerAt  -- in the pause between two rounds
  ended : ManagerAt

-- Where the main thread stands in `stop`: before it, at the test and the call of `shutdown`, at the
-- test and the call of `close`, and behind them.
pub data StopAt : Type 0 where
  uncalled testing shutting retesting closing past : StopAt

-- Under the lock, only the manager assigns `self.sock`, so its test of it and the close are one move.
-- A connection counts as made once `set_tcp_keepalive` passed.
pub data ManagerMove (m : Shared) : ManagerAt → Shared → ManagerAt → Type 0 where
  finish : m.stop_event ≡ true → ManagerMove m deciding m ended
  listen : m.stop_event ≡ false → ManagerMove m deciding m dialling
  cannot_listen : m.stop_event ≡ false → ManagerMove m deciding m leaving
  give_up : m.stop_event ≡ true → ManagerMove m dialling m serving
  dial : m.stop_event ≡ false → ManagerMove m dialling m calling
  dial_again : ManagerMove m calling m dialling
  dial_failed : ManagerMove m calling m leaving
  connected :
      {c : ℕ} → ManagerMove m calling (record m { made = m.made ++ (c ∷ []) }) (installing c)
  close_former :
      {c : ℕ}
      → ManagerMove m
          (installing c)
          (record m { closed = m.closed ++ sockets m.sock })
          (replacing c)
  replace : {c : ℕ} → ManagerMove m (replacing c) (record m { sock = some c }) serving
  stop_serving : m.stop_event ≡ true → ManagerMove m serving m leaving
  serve : m.stop_event ≡ false → ManagerMove m serving m taking
  no_sock : m.sock ≡ none → ManagerMove m taking m leaving
  take : {s : ℕ} → m.sock ≡ some s → ManagerMove m taking m (reading s)
  received : {s : ℕ} → ManagerMove m (reading s) m serving
  receive_ended : {s : ℕ} → ManagerMove m (reading s) m leaving
  close_last : ManagerMove m leaving (record m { closed = m.closed ++ sockets m.sock }) forgetting
  forget : ManagerMove m forgetting (record m { sock = none }) pausing
  next_round : ManagerMove m pausing m deciding

-- `stop` takes no lock, and reads `self.sock` for each test and again for each call; on None a call
-- raises AttributeError, which is dropped as all its errors are.
pub data StopMove (m : Shared) : StopAt → Shared → StopAt → Type 0 where
  set_event : StopMove m uncalled (record m { stop_event = true }) testing
  nothing_to_shut : m.sock ≡ none → StopMove m testing m retesting
  will_shut : {s : ℕ} → m.sock ≡ some s → StopMove m testing m shutting
  shut_none : m.sock ≡ none → StopMove m shutting m retesting
  shut_down :
      {s : ℕ} → m.sock ≡ some s → StopMove m shutting (record m { shut = s ∷ m.shut }) retesting
  nothing_to_close : m.sock ≡ none → StopMove m retesting m past
  will_close : {s : ℕ} → m.sock ≡ some s → StopMove m retesting m closing
  close_none : m.sock ≡ none → StopMove m closing m past
  close :
      {s : ℕ}
      → m.sock ≡ some s
      → StopMove m closing (record m { stop_closed = s ∷ m.stop_closed }) past

-- `Bridge.__init__`
unfoldable pub fresh : Shared
fresh = record {
  stop_event = false;
  sock = none;
  made = [];
  closed = [];
  shut = [];
  stop_closed = [];
}

-- A run of both threads in any order, with the number of the manager's moves.
pub data Run (m : Shared) (p : ManagerAt) (q : StopAt)
    : ℕ → Shared → ManagerAt → StopAt → Type 0 where
  here : Run m p q zero m p q
  by_manager :
      {n : ℕ} {m' m'' : Shared} {p' p'' : ManagerAt} {q' : StopAt}
      → Run m p q n m' p' q'
      → ManagerMove m' p' m'' p''
      → Run m p q (suc n) m'' p'' q'
  by_stop :
      {n : ℕ} {m' m'' : Shared} {p' : ManagerAt} {q' q'' : StopAt}
      → Run m p q n m' p' q'
      → StopMove m' q' m'' q''
      → Run m p q n m'' p' q''

-- From `start` on.
abbrev pub Reach : ℕ → Shared → ManagerAt → StopAt → Type 0
Reach n m p q = Run fresh deciding uncalled n m p q
