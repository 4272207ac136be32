-- ===== src/Bridge/Threads/Shuts.antt =====
-- What `stop` of can-tcp-bridge/can-tcp-bridge-server/can_tcp_bridge.py does to the socket from which
-- the thread of `_tcp_manager` receives, however the two threads interleave.
use canopen_tools.Prelude.{ℕ, Bool, true, false, ◌≡◌, refl, Option, some, arith}
use mathlib.Core.List.{Memᴰ}
use mathlib.Core.List.Memᴰ.{head}
use canopen_tools.Bridge.Threads.{
  Shared, ManagerAt, taking, reading, StopAt, uncalled, testing, shutting, retesting, closing, past,
  ManagerMove, StopMove, fresh, here, by_manager, by_stop, Reach,
}
use canopen_tools.Bridge.Threads.ManagerMove.{serve, take}
use canopen_tools.Bridge.Threads.StopMove.{
  set_event, nothing_to_shut, will_shut, shut_none, shut_down, nothing_to_close, will_close,
  close_none, close,
}

-- `stop` was called.
abbrev called : StopAt → Bool
called uncalled = false
called _ = true

-- `stop` is behind its call of `shutdown`.
abbrev pub shutdown_tried : StopAt → Bool
shutdown_tried uncalled = false
shutdown_tried testing = false
shutdown_tried shutting = false
shutdown_tried _ = true

-- The manager has seen the event clear, and has not come back to a loop's head.
abbrev Watches : Option ℕ → ManagerAt → ℕ → Type 0
Watches sock taking s = sock ≡ some s
Watches sock (reading t) s = t ≡ s
Watches sock p s = ⊥

record Inv (m : Shared) (p : ManagerAt) (q : StopAt) : Type 0 where
  event : m.stop_event ≡ called q
  held : (s : ℕ) → Watches m.sock p s → m.sock ≡ some s
  shut : shutdown_tried q ≡ true → (s : ℕ) → Watches m.sock p s → Memᴰ s m.shut

called-shutdown_tried : (q : StopAt) → shutdown_tried q ≡ true → called q ≡ true
called-shutdown_tried uncalled e = e
called-shutdown_tried testing e = refl
called-shutdown_tried shutting e = refl
called-shutdown_tried retesting e = refl
called-shutdown_tried closing e = refl
called-shutdown_tried past e = refl

ManagerMove-Inv :
    {m m' : Shared} {p p' : ManagerAt} {q : StopAt}
    → ManagerMove m p m' p'
    → Inv m p q
    → Inv m' p' q
ManagerMove-Inv {q = q} (serve clear) inv = record {
  event = inv.event;
  held = λ s w. w;
  shut = λ e. cc (inv.event, clear, called-shutdown_tried q e);
}
ManagerMove-Inv {m} (take e) inv = record {
  event = inv.event;
  held = λ s w. cc (e, w);
  shut = λ tried s w. inv.shut tried s (cc (e, w));
}
ManagerMove-Inv mv inv = record {
  event = ground (arith, inv.event);
  held = λ s w. ground arith;
  shut = λ e s w. ground arith;
}

StopMove-Inv :
    {m m' : Shared} {p : ManagerAt} {q q' : StopAt} → StopMove m q m' q' → Inv m p q → Inv m' p q'
StopMove-Inv set_event inv = record { event = refl; held = inv.held; shut = λ e. absurd (cc e) }
StopMove-Inv (nothing_to_shut e) inv = record {
  event = inv.event;
  held = inv.held;
  shut = λ t s w. absurd (cc (inv.held s w, e));
}
StopMove-Inv (will_shut e) inv = record {
  event = inv.event;
  held = inv.held;
  shut = λ t. absurd (cc t);
}
StopMove-Inv (shut_none e) inv = record {
  event = inv.event;
  held = inv.held;
  shut = λ t s w. absurd (cc (inv.held s w, e));
}
StopMove-Inv (shut_down e) inv = record {
  event = inv.event;
  held = inv.held;
  shut = λ t s w. head (cc (inv.held s w, e));
}
StopMove-Inv (nothing_to_close e) inv = record {
  event = inv.event;
  held = inv.held;
  shut = λ t. inv.shut refl;
}
StopMove-Inv (will_close e) inv = record {
  event = inv.event;
  held = inv.held;
  shut = λ t. inv.shut refl;
}
StopMove-Inv (close_none e) inv = record {
  event = inv.event;
  held = inv.held;
  shut = λ t. inv.shut refl;
}
StopMove-Inv (close e) inv = record {
  event = inv.event;
  held = inv.held;
  shut = λ t. inv.shut refl;
}

Reach-Inv : {n : ℕ} {m : Shared} {p : ManagerAt} {q : StopAt} → Reach n m p q → Inv m p q
unfolding fresh
Reach-Inv here = record { event = refl; held = λ s w. absurd w; shut = λ e s w. absurd w }
Reach-Inv (by_manager r mv) = ManagerMove-Inv mv (Reach-Inv r)
Reach-Inv (by_stop r mv) = StopMove-Inv mv (Reach-Inv r)

-- However the two threads interleave: while the manager receives from a socket, that socket is
-- `self.sock`; and once `stop` is behind its call of `shutdown`, it has shut that socket down, though
-- it takes no lock, tests `self.sock` and reads it again.
pub stop-shuts_down :
    {n : ℕ} {m : Shared} {q : StopAt} (s : ℕ)
    → Reach n m (reading s) q
    → (m.sock ≡ some s) × (shutdown_tried q ≡ true → Memᴰ s m.shut)
stop-shuts_down s r = let inv = Reach-Inv r in (inv.held s refl, λ e. inv.shut e s refl)
