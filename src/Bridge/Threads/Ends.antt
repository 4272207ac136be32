-- ===== src/Bridge/Threads/Ends.antt =====
-- How the thread of `_tcp_manager` of can-tcp-bridge/can-tcp-bridge-server/can_tcp_bridge.py comes to
-- its end once `stop` set the event.
use canopen_tools.Prelude.{
  ℕ, ◌+◌, ◌≤◌, ◌<◌, Bool, true, false, ◌≡◌, refl, sym, ap, ◌∙◌, Option, none, some, List, [], ◌∷◌,
  ◌++◌, append_assoc, append-nil, arith,
}
use canopen_tools.Bridge.Link.{sockets}
use canopen_tools.Bridge.Threads.{
  Shared, ManagerAt, deciding, dialling, calling, installing, replacing, serving, taking, reading,
  leaving, forgetting, pausing, ended, StopAt, ManagerMove, StopMove, fresh, Run, here, by_manager,
  by_stop, Reach,
}
use canopen_tools.Bridge.Threads.ManagerMove.{
  finish, listen, cannot_listen, give_up, dial, dial_again, connected, close_former, replace,
  stop_serving, serve, no_sock, take, receive_ended, close_last, forget, next_round,
}
use canopen_tools.Bridge.Threads.StopMove.{set_event}

-- The sockets that are still to be closed, given `self.sock`.
abbrev open_at : ManagerAt → Option ℕ → List ℕ
open_at (installing c) sock = sockets sock ++ (c ∷ [])
open_at (replacing c) sock = c ∷ []
open_at forgetting sock = []
open_at p sock = sockets sock

-- Between two connections.
abbrev is_between : ManagerAt → Bool
is_between deciding = true
is_between pausing = true
is_between ended = true
is_between _ = false

record Inv (m : Shared) (p : ManagerAt) : Type 0 where
  accounted : m.closed ++ open_at p m.sock ≡ m.made
  between : is_between p ≡ true → m.sock ≡ none

ManagerMove-Inv : {m m' : Shared} {p p' : ManagerAt} → ManagerMove m p m' p' → Inv m p → Inv m' p'
ManagerMove-Inv {m} (connected {c}) inv = record {
  accounted =
      sym (append_assoc m.closed (sockets m.sock) (c ∷ [])) ∙ ap (λ l. l ++ (c ∷ [])) inv.accounted;
  between = λ e. cc e;
}
ManagerMove-Inv {m} (close_former {c}) inv = record {
  accounted = append_assoc m.closed (sockets m.sock) (c ∷ []) ∙ inv.accounted;
  between = λ e. cc e;
}
ManagerMove-Inv replace inv = record { accounted = inv.accounted; between = λ e. cc e }
ManagerMove-Inv {m} close_last inv = record {
  accounted = append-nil (m.closed ++ sockets m.sock) ∙ inv.accounted;
  between = λ e. cc e;
}
ManagerMove-Inv forget inv = record { accounted = inv.accounted; between = λ e. refl }
ManagerMove-Inv mv inv = record {
  accounted = ground (arith, inv.accounted);
  between = ground (arith, inv.between);
}

-- How many moves are left at most, once the event is set.
abbrev moves_left : ManagerAt → ℕ
moves_left ended = 0
moves_left deciding = 1
moves_left pausing = 2
moves_left forgetting = 3
moves_left leaving = 4
moves_left serving = 5
moves_left dialling = 6
moves_left (replacing _) = 6
moves_left (reading _) = 6
moves_left (installing _) = 7
moves_left taking = 7
moves_left calling = 8

moves_left_max : (p : ManagerAt) → moves_left p ≤ 8
moves_left_max deciding = omega arith
moves_left_max p = ground arith

ManagerMove-left :
    {m m' : Shared} {p p' : ManagerAt}
    → ManagerMove m p m' p'
    → m.stop_event ≡ true
    → (m'.stop_event ≡ true) × (moves_left p' < moves_left p)
ManagerMove-left (listen clear) set = ground arith
ManagerMove-left (cannot_listen clear) set = ground arith
ManagerMove-left (dial clear) set = ground arith
ManagerMove-left (serve clear) set = ground arith
ManagerMove-left mv set = ground arith

StopMove-event :
    {m m' : Shared} {q q' : StopAt}
    → StopMove m q m' q'
    → m.stop_event ≡ true
    → m'.stop_event ≡ true
StopMove-event set_event set = refl
StopMove-event mv set = set

StopMove-Inv :
    {m m' : Shared} {p : ManagerAt} {q q' : StopAt} → StopMove m q m' q' → Inv m p → Inv m' p
StopMove-Inv set_event inv = record { accounted = inv.accounted; between = inv.between }
StopMove-Inv mv inv = record { accounted = inv.accounted; between = inv.between }

Reach-Inv : {n : ℕ} {m : Shared} {p : ManagerAt} {q : StopAt} → Reach n m p q → Inv m p
unfolding fresh
Reach-Inv here = record { accounted = refl; between = λ e. refl }
Reach-Inv (by_manager r mv) = ManagerMove-Inv mv (Reach-Inv r)
Reach-Inv (by_stop r mv) = StopMove-Inv mv (Reach-Inv r)

module _ {m : Shared} {p : ManagerAt} {q : StopAt} where
  Run-left :
      {n : ℕ} {m' : Shared} {p' : ManagerAt} {q' : StopAt}
      → Run m p q n m' p' q'
      → m.stop_event ≡ true
      → (m'.stop_event ≡ true) × (n + moves_left p' ≤ moves_left p)
  Run-left here set = (set, omega arith)
  Run-left (by_manager r mv) set =
      let (before, left) = Run-left r set in
      let (after, less) = ManagerMove-left mv before in (after, omega arith)
  Run-left (by_stop r mv) set =
      let (before, left) = Run-left r set in (StopMove-event mv before, left)

  Run-Inv :
      {n : ℕ} {m' : Shared} {p' : ManagerAt} {q' : StopAt}
      → Run m p q n m' p' q'
      → Inv m p
      → Inv m' p'
  Run-Inv here inv = inv
  Run-Inv (by_manager r mv) inv = ManagerMove-Inv mv (Run-Inv r inv)
  Run-Inv (by_stop r mv) inv = StopMove-Inv mv (Run-Inv r inv)

-- At its end the manager holds no socket and has closed all that it made; before, it can move on.
abbrev pub Goes : Shared → ManagerAt → Type 0
Goes m ended = (m.sock ≡ none) × (m.closed ≡ m.made)
Goes m p = (m' : Shared) × (p' : ManagerAt) × ManagerMove m p m' p'

taking-Goes : (m : Shared) (sock : Option ℕ) → m.sock ≡ sock → Goes m taking
taking-Goes m none e = (m, leaving, no_sock e)
taking-Goes m (some s) e = (m, reading s, take e)

Inv-Goes : (m : Shared) (p : ManagerAt) → m.stop_event ≡ true → Inv m p → Goes m p
Inv-Goes m ended set inv = (
  inv.between refl,
  sym (append-nil m.closed)
      ∙ ap (λ o. m.closed ++ sockets o) (sym (inv.between refl))
      ∙ inv.accounted,
)
Inv-Goes m deciding set inv = (m, ended, finish set)
Inv-Goes m dialling set inv = (m, serving, give_up set)
Inv-Goes m calling set inv = (m, dialling, dial_again)
Inv-Goes m (installing c) set inv = (_, replacing c, close_former)
Inv-Goes m (replacing c) set inv = (_, serving, replace)
Inv-Goes m serving set inv = (m, leaving, stop_serving set)
Inv-Goes m taking set inv = taking-Goes m m.sock refl
Inv-Goes m (reading s) set inv = (m, leaving, receive_ended)
Inv-Goes m leaving set inv = (_, forgetting, close_last)
Inv-Goes m forgetting set inv = (_, pausing, forget)
Inv-Goes m pausing set inv = (m, deciding, next_round)

-- From any state that the two threads can reach and in which the event is set, however they go on:
-- the manager makes at most eight more moves, where a blocking call that returns is one; it is never
-- stuck before its end; and at its end `self.sock` is None and it has closed every socket that it
-- ever made, once each and in order, also one that it made after `stop` had looked at `self.sock`.
pub stop-ends :
    {k n : ℕ} {m m' : Shared} {p p' : ManagerAt} {q q' : StopAt}
    → Reach k m p q
    → m.stop_event ≡ true
    → Run m p q n m' p' q'
    → (n ≤ 8) × Goes m' p'
stop-ends {p} before set r =
    let (still, left) = Run-left r set in
    (omega (arith, moves_left_max p), Inv-Goes _ _ still (Run-Inv r (Reach-Inv before)))
