-- ===== src/Interactive/Refresh/Fresh.antt =====
-- No event is lost on the screen of canopen-interactive/co.py.
use canopen_tools.Prelude.{
  ◌<◌, ◌≡◌, ◌≢◌, ◌⊎◌, inl, inr, refl, sym, subst, Bool, true, false, some, arith,
}
use canopen_tools.Interactive.Refresh.{
  Screen, waiting, Ui, top, entered, blanked, asking, acting, changed, Step, stores, signals, wakes,
  clears, stays_out, goes_in, blanks, prints, enters, ui_blanks, ui_prints, answered, writes_over,
  removes, ui_signals, returns, Reach, here, next,
}

-- Something is under way that will print the tables again.
abbrev pub IsDue : {V : Type 0} → Screen V → Type 0
IsDue s = (s.force_refresh ≡ true) ⊎ ((0 < s.unsignalled) ⊎ (s.refresher ≢ waiting))

abbrev InMenu : Ui → Bool → Type 0
InMenu entered b = b ≡ true
InMenu blanked b = b ≡ true
InMenu asking b = b ≡ true
InMenu _ b = Unit

InMenu-at : (u w : Ui) (b : Bool) → u ≡ w → InMenu u b → InMenu w b
InMenu-at u w b e m = subst (λ x. InMenu x b) e m

module _ {V : Type 0} where
  abbrev Shows : Ui → Screen V → Type 0
  Shows asking s = IsDue s ⊎ (s.shown ≡ some s.tables)
  Shows _ s = Unit

  pub record IsFresh (s : Screen V) : Type 0 where
    pub menu : InMenu s.ui s.in_main_menu
    pub shows : Shows s.ui s

  Shows-due : (u : Ui) (t : Screen V) → IsDue t → Shows u t
  Shows-due asking t d = inl d
  Shows-due top t d = tt
  Shows-due entered t d = tt
  Shows-due blanked t d = tt
  Shows-due acting t d = tt
  Shows-due changed t d = tt

  Shows-shown : (u : Ui) (t : Screen V) → t.shown ≡ some t.tables → Shows u t
  Shows-shown asking t e = inr e
  Shows-shown top t e = tt
  Shows-shown entered t e = tt
  Shows-shown blanked t e = tt
  Shows-shown acting t e = tt
  Shows-shown changed t e = tt

  -- Out of the menu nothing is asked of the screen.
  Shows-out : (u : Ui) (b : Bool) (t : Screen V) → InMenu u b → b ≡ false → Shows u t
  Shows-out asking b t m e = cc (m, e)
  Shows-out top b t m e = tt
  Shows-out entered b t m e = tt
  Shows-out blanked b t m e = tt
  Shows-out acting b t m e = tt
  Shows-out changed b t m e = tt

  Shows-acting : (u : Ui) (t : Screen V) → u ≡ acting → Shows u t
  Shows-acting u t e = subst (λ x. Shows x t) (sym e) tt

  Step-IsFresh : {s t : Screen V} → Step s t → IsFresh s → IsFresh t
  Step-IsFresh {s} (stores v) h = record {
    menu = h.menu;
    shows = Shows-due s.ui _ (inr (inl (omega arith)));
  }
  Step-IsFresh {s} (signals n e) h = record { menu = h.menu; shows = Shows-due s.ui _ (inl refl) }
  Step-IsFresh {s} (wakes r f) h = record {
    menu = h.menu;
    shows = Shows-due s.ui _ (inr (inr (λ e. cc e)));
  }
  Step-IsFresh {s} (clears r) h = record {
    menu = h.menu;
    shows = Shows-due s.ui _ (inr (inr (λ e. cc e)));
  }
  Step-IsFresh {s} (stays_out r m) h = record {
    menu = h.menu;
    shows = Shows-out s.ui s.in_main_menu _ h.menu m;
  }
  Step-IsFresh {s} (goes_in r m) h = record {
    menu = h.menu;
    shows = Shows-due s.ui _ (inr (inr (λ e. cc e)));
  }
  Step-IsFresh {s} (blanks r) h = record {
    menu = h.menu;
    shows = Shows-due s.ui _ (inr (inr (λ e. cc e)));
  }
  Step-IsFresh {s} (prints r) h = record { menu = h.menu; shows = Shows-shown s.ui _ refl }
  Step-IsFresh (enters u) h = record { menu = refl; shows = tt }
  Step-IsFresh {s} (ui_blanks u) h = record {
    menu = InMenu-at s.ui entered s.in_main_menu u h.menu;
    shows = tt;
  }
  Step-IsFresh {s} (ui_prints u) h = record {
    menu = InMenu-at s.ui blanked s.in_main_menu u h.menu;
    shows = inr refl;
  }
  Step-IsFresh (answered u) h = record { menu = tt; shows = tt }
  Step-IsFresh {s} (writes_over u) h = record { menu = h.menu; shows = Shows-acting s.ui _ u }
  Step-IsFresh (removes v u) h = record { menu = tt; shows = tt }
  Step-IsFresh (ui_signals u) h = record { menu = tt; shows = tt }
  Step-IsFresh (returns u) h = record { menu = tt; shows = tt }

  pub Reach-IsFresh : {v : V} {s : Screen V} → Reach v s → IsFresh s
  Reach-IsFresh here = record { menu = tt; shows = tt }
  Reach-IsFresh (next r st) = Step-IsFresh st (Reach-IsFresh r)

  -- The state at the prompt, in a form that names no thread's place.
  pub asking-IsFresh :
      (s : Screen V)
      → IsFresh s
      → s.ui ≡ asking
      → (s.in_main_menu ≡ true) × (IsDue s ⊎ (s.shown ≡ some s.tables))
  asking-IsFresh s h u =
      (InMenu-at s.ui asking s.in_main_menu u h.menu, subst (λ x. Shows x s) u h.shows)

  -- In every state that the threads reach, in whatever order they run: when `main` waits for an
  -- answer, no callback has a signal to give, the event is clear and `refresh_loop` waits for it, the
  -- screen shows the current contents of the tables. No event and no removal is lost.
  pub no_lost_event :
      (v : V) (s : Screen V)
      → Reach v s
      → s.ui ≡ asking
      → s.unsignalled ≡ 0
      → s.force_refresh ≡ false
      → s.refresher ≡ waiting
      → s.shown ≡ some s.tables
  no_lost_event v s r u quiet clear waits = elim (asking-IsFresh s (Reach-IsFresh r) u).1 [
    | inl (inl set) ↦ cc (set, clear)
    | inl (inr (inl owed)) ↦ absurd (omega arith)
    | inl (inr (inr busy)) ↦ absurd (busy waits)
    | inr shown ↦ shown
  ]
