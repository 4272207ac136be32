-- ===== src/Tests/Monitor.antt =====
-- The event monitor over a callback list that holds pairs of a key and a callback.
use canopen_tools.Prelude.{
  ℕ, Bool, true, false, ◌≡◌, ◌==◌, ==_iff, refl, ap, ◌∙◌, ◌⊎◌, inl, inr, ◌&&◌, ◌||◌, none, List, [],
  ◌∷◌, map, if◌then◌else◌, Bool-cases,
}
use canopen_tools.Outcome.{ok, raise, value_error, attribute_error, IsCaught}
use canopen_tools.Interactive.Dict.{get, set, pop}
use canopen_tools.Interactive.Monitor.{
  callback, PdoKey, same_pdo, Callbacks, State, subscribe_pdo, arrive, unsubscribe_pdo,
}
use mathlib.Core.List.{Perm}
use canopen_tools.Interactive.Text.{Text, codes, ℤ, pos}
use canopen_tools.Interactive.Text.Decimal.{str}
use canopen_tools.Interactive.Sorting.{Ascending}
use canopen_tools.Interactive.Monitor.Render.{
  Formats, Shown, leb_key, leb_int, pdo_line, hb_line, render_monitor,
}
use canopen_tools.Interactive.Monitor.Render.Lines.{screen, render_monitor-screen}
use canopen_tools.Interactive.Monitor.Laws.{CallbacksLaws}
use canopen_tools.Interactive.Monitor.Hidden.{
  Act, subscribes_pdo, subscribes_heartbeat, unsubscribes_pdo, arrives, act, acts, IsTracked,
  IsLeft,
}
use canopen_tools.Interactive.Monitor.Races.{Fine, whole, calls, stores, fine, fines}
use canopen_tools.Interactive.Monitor.Races.Stays.{removed_stays_hidden}

same_pdo_refl : (k : PdoKey) → same_pdo k k ≡ true
same_pdo_refl (a, b) = rw ((==_iff a a).1 refl, (==_iff b b).1 refl) refl

same_pdo→≡ : (j k : PdoKey) → same_pdo j k ≡ true → j ≡ k
same_pdo→≡ (a, b) (c, d) e = elim (Bool-cases (a == c)) [
  | inl first ↦ elim (Bool-cases (b == d)) [
    | inl second ↦ rw ((==_iff a c).0 first, (==_iff b d).0 second) refl
    | inr differs ↦ cc (rw (first, differs) at e)
  ]
  | inr differs ↦ cc (rw differs at e)
]

abbrev Registered : Type 0
Registered = List (PdoKey × ℕ)

abbrev is_it : PdoKey → ℕ → PdoKey × ℕ → Bool
is_it k r (j, q) = same_pdo k j && (r == q)

abbrev is_live : PdoKey → ℕ → Registered → Bool
is_live k r [] = false
is_live k r (x ∷ w) = is_it k r x || is_live k r w

abbrev without : PdoKey → ℕ → Registered → Registered
without k r [] = []
without k r (x ∷ w) = if is_it k r x then without k r w else x ∷ without k r w

abbrev registry : Callbacks Registered PdoKey
registry = record {
  find = λ k w. ok tt;
  add = λ k r w. ok ((k, r) ∷ w);
  append = λ k r w. ok ((k, r) ∷ w);
  remove = λ k r w. if is_live k r w then ok (without k r w) else raise value_error;
  live = is_live;
}

is_it→≡ : (k : PdoKey) (r : ℕ) (j : PdoKey) (q : ℕ) → is_it k r (j, q) ≡ true → (k ≡ j) × (r ≡ q)
is_it→≡ k r j q e = elim (Bool-cases (same_pdo k j)) [
  | inl first ↦ (same_pdo→≡ k j first, (==_iff r q).0 (rw first at e))
  | inr differs ↦ cc (rw differs at e)
]

is_live-add :
    (j k : PdoKey) (ref r : ℕ) (w : Registered)
    → is_live k r ((j, ref) ∷ w) ≡ true
    → ((k ≡ j) × (r ≡ ref)) ⊎ (is_live k r w ≡ true)
is_live-add j k ref r w l = elim (Bool-cases (is_it k r (j, ref))) [
  | inl here ↦ inl (is_it→≡ k r j ref here)
  | inr there ↦ inr (rw there at l)
]

or_true : (a b : Bool) → b ≡ true → (a || b) ≡ true
or_true true b e = refl
or_true false b e = e

is_live-without :
    (j k : PdoKey) (ref r : ℕ) (w : Registered)
    → is_live k r (without j ref w) ≡ true
    → (is_live k r w ≡ true) × (¬ ((k ≡ j) × (r ≡ ref)))
is_live-without j k ref r [] l = cc l
is_live-without j k ref r ((i, q) ∷ w) l = elim (Bool-cases (is_it j ref (i, q))) [
  | inl drops ↦
      let rest = is_live-without j k ref r w (rw drops at l) in
      (or_true (is_it k r (i, q)) (is_live k r w) rest.0, rest.1)
  | inr keeps ↦ elim (Bool-cases (is_it k r (i, q))) [
    | inl here ↦ (rw here refl, λ (e, n). cc (e, n, here, keeps))
    | inr there ↦
        let rest = is_live-without j k ref r w (rw (keeps, there) at l) in
        (or_true (is_it k r (i, q)) (is_live k r w) rest.0, rest.1)
  ]
]

registry_remove :
    (j : PdoKey) (ref : ℕ) (w : Registered)
    → (registry.remove j ref w ≡ ok (without j ref w))
      ⊎ ((is_live j ref w ≡ false) × (registry.remove j ref w ≡ raise value_error))
registry_remove j ref w = elim (Bool-cases (is_live j ref w)) [
  | inl live ↦ inl (rw live refl)
  | inr dead ↦ inr (dead, rw dead refl)
]

ok_value : {A : Type 0} (a b : A) → ok a ≡ ok b → a ≡ b
ok_value a b e = cc e

registry_laws : CallbacksLaws registry
registry_laws = record {
  add_live = λ j k ref r w n e l. is_live-add j k ref r w (ap (is_live k r) (ok_value _ n e) ∙ l);
  append_live =
      λ j k ref r w n e l. is_live-add j k ref r w (ap (is_live k r) (ok_value _ n e) ∙ l);
  remove_live = λ j k ref r w n e l. elim (registry_remove j ref w) [
    | inl done ↦ is_live-without j k ref r w (ap (is_live k r) (cc (done, e)) ∙ l)
    | inr (dead, fails) ↦ cc (fails, e)
  ];
}

abbrev start : State Registered PdoKey ℕ
start = ([], record { subscribed = []; callbacks = []; force_refresh = false })

start-IsTracked : IsTracked registry same_pdo start
unfolding get
start-IsTracked = record { known = λ k r l. cc l; listed = λ k e. refl }

-- PDO 1 of node 5 is subscribed, shown and unsubscribed, and then its event comes again.
abbrev watching : List (Act PdoKey ℕ)
watching = subscribes_pdo (5, 1) 0 ∷ arrives (5, 1) 0 77 ∷ []

watching_shows : (acts registry same_pdo watching start).1.subscribed ≡ ((5, 1), 77) ∷ []
unfolding subscribe_pdo arrive set
watching_shows = refl

-- A key that is subscribed twice keeps its first callback when it is unsubscribed.
twice_comes_back :
    (acts registry same_pdo
      (subscribes_pdo (5, 1) 0
        ∷ subscribes_pdo (5, 1) 1
        ∷ unsubscribes_pdo (5, 1)
        ∷ arrives (5, 1) 0 77
        ∷ [])
      start).1.subscribed
    ≡ ((5, 1), 77) ∷ []
unfolding subscribe_pdo arrive unsubscribe_pdo get set pop
twice_comes_back = refl

-- An event of node 6 waits for the lock while PDO 1 of node 5 is unsubscribed; then both arrive.
abbrev watching_two : List (Fine PdoKey ℕ)
watching_two =
    whole (subscribes_pdo (5, 1) 0)
    ∷ whole (subscribes_pdo (6, 2) 1)
    ∷ calls (5, 1) 0 77
    ∷ stores
    ∷ calls (6, 2) 1 88
    ∷ []

abbrev afterwards : List (Fine PdoKey ℕ)
afterwards =
    calls (5, 1) 0 78
    ∷ stores
    ∷ whole (subscribes_heartbeat (7, 1) 2)
    ∷ calls (5, 1) 0 79
    ∷ stores
    ∷ []

-- The registry raises ValueError, or removes.
registry-IsCaught : (j : PdoKey) (ref : ℕ) (w : Registered) → IsCaught (registry.remove j ref w)
unfolding IsCaught
registry-IsCaught j ref w = elim (registry_remove j ref w) [
  | inl done ↦ rw done tt
  | inr (dead, fails) ↦ rw fails refl
]

removed_stays_hidden_example :
    (get same_pdo
        (5, 1)
        (fine registry same_pdo
          (whole (unsubscribes_pdo (5, 1)))
          (fines registry same_pdo watching_two (start, none))).0.1.subscribed
      ≡ none)
    × ((get same_pdo
            (5, 1)
            (fines registry same_pdo afterwards (
              fine registry same_pdo
                (whole (unsubscribes_pdo (5, 1)))
                (fines registry same_pdo watching_two (start, none)))).0.1.subscribed
          ≡ none)
        ⊎ IsLeft registry same_pdo
            (5, 1)
            (fines registry same_pdo watching_two (start, none)).0
            (act registry same_pdo
              (unsubscribes_pdo (5, 1))
              (fines registry same_pdo watching_two (start, none)).0))
unfolding get subscribe_pdo set
removed_stays_hidden_example =
    removed_stays_hidden registry same_pdo registry_laws same_pdo_refl same_pdo→≡ (5, 1)
      (unsubscribes_pdo (5, 1)) watching_two afterwards start start-IsTracked
      ((refl, tt), ((refl, tt), (tt, (tt, (tt, tt))))) refl
      (
        refl,
        λ ref e.
            registry-IsCaught (5, 1) ref (fines registry same_pdo watching_two (start, none)).0.0,
      )
      (λ e. cc e) (tt, (tt, (refl, (tt, (tt, tt)))))

-- PDO maps without `remove_callback`: the AttributeError is passed over, and the next event of the
-- key shows it again, which unsubscribing it once more, with no callback recorded, does not change.
abbrev no_removal : Callbacks Registered PdoKey
no_removal = record registry { remove = λ k r w. raise attribute_error }

unsubscribed_comes_back :
    (acts no_removal same_pdo
      (subscribes_pdo (5, 1) 0
        ∷ arrives (5, 1) 0 77
        ∷ unsubscribes_pdo (5, 1)
        ∷ arrives (5, 1) 0 78
        ∷ unsubscribes_pdo (5, 1)
        ∷ [])
      start).1.subscribed
    ≡ ((5, 1), 78) ∷ []
unfolding subscribe_pdo arrive unsubscribe_pdo get set pop
unsubscribed_comes_back = refl

-- A callback that waits for the lock while its key is unsubscribed shows the key again, and
-- unsubscribing it once more, which finds no callback, does not remove it.
late_callback_stays :
    (fines registry same_pdo
      (whole (subscribes_pdo (5, 1) 0)
        ∷ calls (5, 1) 0 77
        ∷ whole (unsubscribes_pdo (5, 1))
        ∷ stores
        ∷ whole (unsubscribes_pdo (5, 1))
        ∷ [])
      (start, none)).0.1.subscribed
    ≡ ((5, 1), 77) ∷ []
unfolding subscribe_pdo unsubscribe_pdo get set pop callback
late_callback_stays = refl

-- The values are numbers, and the times texts.
abbrev formats : Formats ℕ Text
formats = record { show = str; clock = λ t. t }

abbrev entry : ℕ → Shown ℕ Text
entry v = record { value = v; ts = codes "12:00"; eds_name = codes "a.eds" }

abbrev two_pdos : List ((ℤ × ℕ) × Shown ℕ Text)
two_pdos = ((pos 6, 1), entry 7) ∷ ((pos 5, 2), entry 8) ∷ []

renders_in_order :
    render_monitor formats two_pdos ((pos 5, entry 3) ∷ [])
    ≡ codes "=================================================="
      ∷ codes "=== Subscribed PDOs ==="
      ∷ codes "Node 5 (a.eds) - PDO2: 8, 12:00"
      ∷ codes "Node 6 (a.eds) - PDO1: 7, 12:00"
      ∷ codes "=== Subscribed Heartbeats ==="
      ∷ codes "Node 5 (a.eds): state=Unknown(3), 12:00"
      ∷ codes "=================================================="
      ∷ []
unfolding render_monitor str
renders_in_order = refl

render_monitor-screen_example :
    (ps : List ((ℤ × ℕ) × Shown ℕ Text)) × (hs : List (ℤ × Shown ℕ Text)) × (Perm ps two_pdos
      × Ascending leb_key ps)
    × (Perm hs ((pos 5, entry 3) ∷ []) × Ascending leb_int hs)
    × (render_monitor formats two_pdos ((pos 5, entry 3) ∷ [])
        ≡ screen formats (map (pdo_line formats) ps) (map (hb_line formats) hs))
render_monitor-screen_example = render_monitor-screen formats two_pdos ((pos 5, entry 3) ∷ [])
