-- ===== src/Tests/Refresh.antt =====
-- The screen of the interactive tool: an event arrives while the menu is shown.
use canopen_tools.Prelude.{ℕ, true, false, ◌≡◌, refl, some}
use canopen_tools.Interactive.Refresh.{
  Screen, waiting, asking, stores, signals, wakes, clears, goes_in, blanks, prints, enters,
  ui_blanks, ui_prints, Reach, here, next, refresh_steps,
}
use canopen_tools.Interactive.Refresh.Fresh.{no_lost_event}
use canopen_tools.Interactive.Refresh.Settles.{refresh_loop-settles}

-- The menu is shown with tables 1, and then a callback stores 2 and signals it.
abbrev stale : Screen ℕ
stale = record {
  tables = 2;
  unsignalled = 0;
  force_refresh = true;
  in_main_menu = true;
  shown = some 1;
  refresher = waiting;
  ui = asking;
}

stale-Reach : Reach 1 stale
stale-Reach =
    next (next (next (next (next here (enters refl)) (ui_blanks refl)) (ui_prints refl)) (stores 2))
      (signals 0 refl)

-- After a round of `refresh_loop`.
abbrev renewed : Screen ℕ
renewed = record stale { force_refresh = false; shown = some 2 }

renewed-Reach : Reach 1 renewed
renewed-Reach =
    next
      (next (next (next (next stale-Reach (wakes refl refl)) (clears refl)) (goes_in refl refl))
        (blanks refl))
      (prints refl)

no_lost_event_example : renewed.shown ≡ some renewed.tables
no_lost_event_example = no_lost_event 1 renewed renewed-Reach refl refl refl refl

refresh_loop-settles_example :
    Reach 1 (refresh_steps 8 stale)
    × (refresh_steps 8 stale
        ≡ record stale { force_refresh = false; shown = some stale.tables; refresher = waiting })
refresh_loop-settles_example = refresh_loop-settles 1 stale stale-Reach refl refl
