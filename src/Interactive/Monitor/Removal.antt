-- ===== src/Interactive/Monitor/Removal.antt =====
-- What the removal of a callback leaves of its key in `EventMonitor` of canopen-interactive/co.py.
use canopen_tools.Prelude.{
  ℕ, Bool, true, ◌≡◌, ◌≢◌, refl, sym, ◌⊎◌, inl, inr, none, some, Bool-cases, Option-cases,
}
use canopen_tools.Outcome.{Result, ok, raise, IsCaught}
use canopen_tools.Interactive.Dict.{get, get-pop, get-set}
use canopen_tools.Interactive.Monitor.Laws.{CallbacksLaws}
use canopen_tools.Interactive.Monitor.Hidden.{
  Act, unsubscribes_pdo, unsubscribes_heartbeat, Removes, act, IsTracked, IsHidden, IsCalmRemoval,
  Goes, IsLeft,
}
use canopen_tools.Interactive.Monitor.{
  Callbacks, Feed, State, callback, forget, removed, unsubscribe_found, unsubscribe_looked_up,
  unsubscribe_pdo, unsubscribe_heartbeat, arrive,
}
use canopen_tools.Interactive.Monitor.Tracked.{gone, was_gone}

module _ {N K V : Type 0} (lib : Callbacks N K) (same : K → K → Bool) (laws : CallbacksLaws lib)
    (same_refl : (j : K) → same j j ≡ true) (same→≡ : (j k : K) → same j k ≡ true → j ≡ k) where
  -- What a removal leaves of its key: it is not shown, and nothing can show it but the callback, if the
  -- library still holds that.
  abbrev pub Removed : K → State N K V → State N K V → Type 0
  Removed k s t =
      (get same k t.1.subscribed ≡ none) × (IsHidden lib same k t ⊎ IsLeft lib same k s t)

  forgotten :
      (j : K) (s : State N K V) (n : N)
      → ((k : K) (q : ℕ) → lib.live k q n ≡ true → (lib.live k q s.0 ≡ true) × (k ≢ j))
      → Removed j s (n, forget lib same j s.1)
  unfolding forget
  forgotten j s n lives = (
    get-pop same j s.1.subscribed,
    inl (record {
      not_shown = get-pop same j s.1.subscribed;
      not_recorded = get-pop same j s.1.callbacks;
      not_live = λ r l. (lives j r l).1 refl;
    }),
  )

  -- A callback that the library still holds shows its key.
  left_shows :
      (j : K) (ref : ℕ) (v : V) (w : N) (f : Feed K V)
      → lib.live j ref w ≡ true
      → get same j (arrive lib same j ref v (w, f)).1.subscribed ≡ some v
  unfolding arrive callback
  left_shows j ref v w f live = rw live (get-set same same_refl same→≡ j v f.subscribed)

  removed-Removed :
      (j : K) (ref : ℕ) (s : State N K V) (r : Result N)
      → lib.remove j ref s.0 ≡ r
      → get same j s.1.callbacks ≡ some ref
      → IsCaught r
      → IsTracked lib same s
      → Removed j s (removed lib same j s r).1
  unfolding removed forget IsCaught
  removed-Removed j ref (w, f) (ok n) e there calm h =
      forgotten j (w, f) n (gone lib same laws same_refl same→≡ j ref w n f there h e)
  removed-Removed j ref (w, f) (raise x) e there caught h =
      rw caught (elim (Bool-cases (lib.live j ref w)) [
        | inr dead ↦
            forgotten j (w, f) w (was_gone lib same laws same_refl same→≡ j ref w f there h dead)
        | inl live ↦ (
          get-pop same j f.subscribed,
          inr (record {
            ref = ref;
            recorded_before = there;
            still_live = live;
            shows_again = λ v. left_shows j ref v w (forget lib same j f) live;
          }),
        )
      ])

  unsubscribe-Removed :
      (j : K) (s : State N K V)
      → IsCalmRemoval lib same j s
      → IsTracked lib same s
      → Removed j s (unsubscribe_found lib same j s (get same j s.1.callbacks)).1
  unfolding unsubscribe_found
  unsubscribe-Removed j s calm h = elim (Option-cases (get same j s.1.callbacks)) [
    | inl none_there ↦ rw none_there (
      h.listed j none_there,
      inl (record {
        not_shown = h.listed j none_there;
        not_recorded = none_there;
        not_live = λ r l. cc (h.known j r l, none_there);
      }),
    )
    | inr (ref, there) ↦
        rw there (removed-Removed j ref s (lib.remove j ref s.0) refl there (calm ref there) h)
  ]

  looked_up-Removed :
      (j : K) (s : State N K V) (found : Result (Unit {0}))
      → found ≡ ok tt
      → IsCalmRemoval lib same j s
      → IsTracked lib same s
      → Removed j s (unsubscribe_looked_up lib same j s found).1
  unfolding unsubscribe_looked_up
  looked_up-Removed j s (ok u) e calm h = unsubscribe-Removed j s calm h
  looked_up-Removed j s (raise x) e calm h = absurd (cc e)

  -- The removal of a key.
  pub removal-Removed :
      (k : K) (u : Act K V) (s : State N K V)
      → Removes lib same k u
      → Goes lib same u s
      → IsTracked lib same s
      → Removed k s (act lib same u s)
  unfolding unsubscribe_pdo unsubscribe_heartbeat
  removal-Removed k (unsubscribes_pdo j) s e (found, calm) h =
      rw (sym e) (looked_up-Removed j s (lib.find j s.0) found calm h)
  removal-Removed k (unsubscribes_heartbeat j) s e calm h =
      rw (sym e) (unsubscribe-Removed j s calm h)
  removal-Removed k _ s e goes h = elim e [ ]
