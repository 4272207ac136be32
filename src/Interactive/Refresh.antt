-- ===== src/Interactive/Refresh.antt =====
-- The screen of canopen-interactive/co.py and the threads that write it: the callbacks of
-- `EventMonitor`, its `refresh_loop`, and the loop of `main`, one constructor for each access to what
-- they share.
use canopen_tools.Prelude.{ℕ, zero, suc, Bool, true, false, ◌≡◌, Option, none, some, if◌then◌else◌}
pub mod Fresh
pub mod Settles

-- `refresh_loop`: in `wait`, behind `wait`, behind `clear`, behind the test of the menu, and behind
-- `clear_screen`.
pub data Refresher : Type 0 where
  waiting woke cleared chosen blank : Refresher

-- `main`: before the flag is set, before and behind `clear_screen` of `manual_refresh`, in `input`,
-- in an action, and in an action that has removed an entry and not yet signalled it.
pub data Ui : Type 0 where
  top entered blanked asking acting changed : Ui

-- `tables` stands for the two dictionaries that are shown, and `shown` for what the monitor last
-- printed, if nothing was written over it. `unsignalled` counts the callbacks that have stored their
-- value and not yet set `force_refresh`.
pub record Screen (V : Type 0) : Type 0 where
  pub tables : V
  pub unsignalled : ℕ
  pub force_refresh : Bool
  pub in_main_menu : Bool
  pub shown : Option V
  pub refresher : Refresher
  pub ui : Ui

-- The threads in any order. The printing holds the lock, as a callback does while it stores.
pub data Step {V : Type 0} (s : Screen V) : Screen V → Type 0 where
  stores : (v : V) → Step s (record s { tables = v; unsignalled = suc s.unsignalled })
  signals :
      (n : ℕ) → s.unsignalled ≡ suc n → Step s (record s { unsignalled = n; force_refresh = true })
  wakes : s.refresher ≡ waiting → s.force_refresh ≡ true → Step s (record s { refresher = woke })
  clears : s.refresher ≡ woke → Step s (record s { refresher = cleared; force_refresh = false })
  stays_out :
      s.refresher ≡ cleared → s.in_main_menu ≡ false → Step s (record s { refresher = waiting })
  goes_in : s.refresher ≡ cleared → s.in_main_menu ≡ true → Step s (record s { refresher = chosen })
  blanks : s.refresher ≡ chosen → Step s (record s { refresher = blank; shown = none })
  prints : s.refresher ≡ blank → Step s (record s { refresher = waiting; shown = some s.tables })
  enters : s.ui ≡ top → Step s (record s { ui = entered; in_main_menu = true })
  ui_blanks : s.ui ≡ entered → Step s (record s { ui = blanked; shown = none })
  ui_prints : s.ui ≡ blanked → Step s (record s { ui = asking; shown = some s.tables })
  answered : s.ui ≡ asking → Step s (record s { ui = acting; in_main_menu = false })
  writes_over : s.ui ≡ acting → Step s (record s { shown = none })
  removes : (v : V) → s.ui ≡ acting → Step s (record s { ui = changed; tables = v })
  ui_signals : s.ui ≡ changed → Step s (record s { ui = acting; force_refresh = true })
  returns : s.ui ≡ acting → Step s (record s { ui = top })

-- `main` before its loop, with the refresher started.
abbrev pub start : {V : Type 0} → V → Screen V
start v = record {
  tables = v;
  unsignalled = 0;
  force_refresh = false;
  in_main_menu = true;
  shown = none;
  refresher = waiting;
  ui = top;
}

pub data Reach {V : Type 0} (v : V) : Screen V → Type 0 where
  here : Reach v (start v)
  next : {s t : Screen V} → Reach v s → Step s t → Reach v t

-- `wait` goes on once the event is set.
unfoldable pub wait_at : {V : Type 0} → Bool → Screen V → Screen V
wait_at true s = record s { refresher = woke }
wait_at false s = s

-- `if get_in_main_menu()`
unfoldable pub choose_at : {V : Type 0} → Bool → Screen V → Screen V
choose_at true s = record s { refresher = chosen }
choose_at false s = record s { refresher = waiting }

-- One step of `refresh_loop` by itself.
unfoldable pub refresh_at : {V : Type 0} → Refresher → Screen V → Screen V
unfolding wait_at choose_at
refresh_at waiting s = wait_at s.force_refresh s
refresh_at woke s = record s { refresher = cleared; force_refresh = false }
refresh_at cleared s = choose_at s.in_main_menu s
refresh_at chosen s = record s { refresher = blank; shown = none }
refresh_at blank s = record s { refresher = waiting; shown = some s.tables }

unfoldable pub refresh_steps : {V : Type 0} → ℕ → Screen V → Screen V
unfolding refresh_at
refresh_steps zero s = s
refresh_steps (suc n) s = refresh_steps n (refresh_at s.refresher s)
