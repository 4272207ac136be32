-- ===== src/Interactive/Refresh/Settles.antt =====
-- `refresh_loop` of canopen-interactive/co.py by itself.
use canopen_tools.Prelude.{
  ℕ, zero, suc, ◌<◌, ◌≡◌, ◌≢◌, Option, arith, ◌⊎◌, inl, inr, refl, Bool, true, false, some,
}
use canopen_tools.Interactive.Refresh.{
  Screen, Ui, Refresher, waiting, woke, cleared, chosen, blank, asking, wakes, clears, stays_out,
  goes_in, blanks, prints, Reach, next, wait_at, choose_at, refresh_at, refresh_steps,
}
use canopen_tools.Interactive.Refresh.Fresh.{IsDue, Reach-IsFresh, asking-IsFresh}

module _ {V : Type 0} where
  wait_at-Reach :
      (v : V) (s : Screen V) (b : Bool)
      → s.refresher ≡ waiting
      → s.force_refresh ≡ b
      → Reach v s
      → Reach v (wait_at b s)
  unfolding wait_at
  wait_at-Reach v s true e set r = next r (wakes e set)
  wait_at-Reach v s false e clear r = r

  choose_at-Reach :
      (v : V) (s : Screen V) (b : Bool)
      → s.refresher ≡ cleared
      → s.in_main_menu ≡ b
      → Reach v s
      → Reach v (choose_at b s)
  unfolding choose_at
  choose_at-Reach v s true e menu r = next r (goes_in e menu)
  choose_at-Reach v s false e menu r = next r (stays_out e menu)

  -- A step of the refresher is one of the threads' steps, or a wait.
  refresh_at-Reach :
      (v : V) (s : Screen V) (r : Refresher)
      → s.refresher ≡ r
      → Reach v s
      → Reach v (refresh_at r s)
  unfolding refresh_at
  refresh_at-Reach v s waiting e r = wait_at-Reach v s s.force_refresh e refl r
  refresh_at-Reach v s woke e r = next r (clears e)
  refresh_at-Reach v s cleared e r = choose_at-Reach v s s.in_main_menu e refl r
  refresh_at-Reach v s chosen e r = next r (blanks e)
  refresh_at-Reach v s blank e r = next r (prints e)

  refresh_steps-Reach : (v : V) (n : ℕ) (s : Screen V) → Reach v s → Reach v (refresh_steps n s)
  unfolding refresh_steps
  refresh_steps-Reach v zero s r = r
  refresh_steps-Reach v (suc n) s r =
      refresh_steps-Reach v n (refresh_at s.refresher s) (refresh_at-Reach v s s.refresher refl r)

  -- Eight steps are enough from each place: a round that is under way, and a whole one.
  settle_at :
      (t : V) (n : ℕ) (set : Bool) (sh : Option V) (r : Refresher) (u : Ui)
      → ((set ≡ true) ⊎ ((0 < n) ⊎ (r ≢ waiting))) ⊎ (sh ≡ some t)
      → n ≡ 0
      → refresh_steps 8 (record {
        tables = t;
        unsignalled = n;
        force_refresh = set;
        in_main_menu = true;
        shown = sh;
        refresher = r;
        ui = u;
      })
        ≡ record {
          tables = t;
          unsignalled = n;
          force_refresh = false;
          in_main_menu = true;
          shown = some t;
          refresher = waiting;
          ui = u;
        }
  unfolding refresh_steps
  settle_at t n true sh waiting u d z = refl
  settle_at t n false sh waiting u (inl (inl e)) z = cc e
  settle_at t n false sh waiting u (inl (inr (inl e))) z = absurd (omega arith)
  settle_at t n false sh waiting u (inl (inr (inr e))) z = absurd (e refl)
  settle_at t n false sh waiting u (inr e) z = rw e refl
  settle_at t n true sh woke u d z = refl
  settle_at t n false sh woke u d z = refl
  settle_at t n true sh cleared u d z = refl
  settle_at t n false sh cleared u d z = refl
  settle_at t n true sh chosen u d z = refl
  settle_at t n false sh chosen u d z = refl
  settle_at t n true sh blank u d z = refl
  settle_at t n false sh blank u d z = refl

  -- From every state that the threads reach with `main` at its prompt and every callback signalled,
  -- eight steps of `refresh_loop` alone are enough: it waits again with the event clear, and the
  -- screen shows the current contents of the tables.
  pub refresh_loop-settles :
      (v : V) (s : Screen V)
      → Reach v s
      → s.ui ≡ asking
      → s.unsignalled ≡ 0
      → Reach v (refresh_steps 8 s)
        × (refresh_steps 8 s
            ≡ record s { force_refresh = false; shown = some s.tables; refresher = waiting })
  refresh_loop-settles v s reached at_prompt signalled =
      (refresh_steps-Reach v 8 s reached, go s.in_main_menu fresh.0)
    where
      fresh : (s.in_main_menu ≡ true) × (IsDue s ⊎ (s.shown ≡ some s.tables))
      fresh = asking-IsFresh s (Reach-IsFresh reached) at_prompt

      go :
          (b : Bool)
          → b ≡ true
          → refresh_steps 8 (record s { in_main_menu = b }) ≡ record s {
            in_main_menu = b;
            force_refresh = false;
            shown = some s.tables;
            refresher = waiting;
          }
      go true e =
          settle_at s.tables s.unsignalled s.force_refresh s.shown s.refresher s.ui fresh.1
            signalled
      go false e = cc e
