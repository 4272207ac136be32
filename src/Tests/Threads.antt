-- ===== src/Tests/Threads.antt =====
-- The two threads at the end of the bridge, on concrete interleavings.
use canopen_tools.Prelude.{◌≤◌, true, ◌≡◌, refl, none, some, [], ◌∷◌}
use mathlib.Core.List.{Memᴰ}
use canopen_tools.Bridge.Threads.{
  Shared, reading, installing, ended, retesting, past, fresh, Run, here, by_manager, by_stop, Reach,
}
use canopen_tools.Bridge.Threads.ManagerMove.{
  finish, listen, dial, connected, close_former, replace, stop_serving, serve, take, close_last,
  forget, next_round,
}
use canopen_tools.Bridge.Threads.StopMove.{
  set_event, will_shut, shut_down, nothing_to_shut, nothing_to_close,
}
use canopen_tools.Bridge.Threads.Shuts.{shutdown_tried, stop-shuts_down}
use canopen_tools.Bridge.Threads.Ends.{Goes, stop-ends}

-- `stop` sets the event between the manager's test of it and its call of `recv`.
abbrev while_reading : Shared
while_reading = record {
  stop_event = true;
  sock = some 3;
  made = 3 ∷ [];
  closed = [];
  shut = 3 ∷ [];
  stop_closed = [];
}

reads : Reach 7 while_reading (reading 3) retesting
unfolding fresh
reads =
    by_stop
      (by_stop
        (by_manager
          (by_stop
            (by_manager
              (by_manager
                (by_manager
                  (by_manager (by_manager (by_manager here (listen refl)) (dial refl)) connected)
                  close_former)
                replace)
              (serve refl))
            set_event)
          (take refl))
        (will_shut refl))
      (shut_down refl)

stop-shuts_down_example :
    (while_reading.sock ≡ some 3) × (shutdown_tried retesting ≡ true → Memᴰ 3 while_reading.shut)
stop-shuts_down_example = stop-shuts_down 3 reads

-- `stop` is over when the manager installs a connection that was just made.
abbrev late : Shared
late = record {
  stop_event = true;
  sock = none;
  made = 3 ∷ [];
  closed = [];
  shut = [];
  stop_closed = [];
}

abbrev all_closed : Shared
all_closed = record {
  stop_event = true;
  sock = none;
  made = 3 ∷ [];
  closed = 3 ∷ [];
  shut = [];
  stop_closed = [];
}

installs_late : Reach 3 late (installing 3) past
unfolding fresh
installs_late =
    by_stop
      (by_stop
        (by_stop (by_manager (by_manager (by_manager here (listen refl)) (dial refl)) connected)
          set_event)
        (nothing_to_shut refl))
      (nothing_to_close refl)

goes_on : Run late (installing 3) past 7 all_closed ended past
goes_on =
    by_manager
      (by_manager
        (by_manager
          (by_manager
            (by_manager (by_manager (by_manager here close_former) replace) (stop_serving refl))
            close_last)
          forget)
        next_round)
      (finish refl)

stop-ends_example : (7 ≤ 8) × Goes all_closed ended
stop-ends_example = stop-ends installs_late refl goes_on
