-- ===== src/Interactive/Monitor/Races/Stays.antt =====
-- What `EventMonitor` of canopen-interactive/co.py shows of a key that was unsubscribed, with
-- callbacks that wait for the lock.
use canopen_tools.Prelude.{
  ℕ, Bool, true, ◌≡◌, ◌≢◌, sym, ◌∙◌, ◌⊎◌, inl, inr, none, some, List, [], ◌∷◌, All, Bool-cases,
  if◌then◌else◌,
}
use canopen_tools.Interactive.Dict.{get, get-set_other}
use canopen_tools.Interactive.Monitor.Laws.{CallbacksLaws}
use canopen_tools.Interactive.Monitor.Hidden.{
  Act, Removes, IsTracked, IsHidden, IsLeft, Goes, act, act-IsHidden, unsubscribes_pdo,
  unsubscribes_heartbeat,
}
use canopen_tools.Interactive.Monitor.Tracked.{act-IsTracked}
use canopen_tools.Interactive.Monitor.Removal.{removal-Removed}
use canopen_tools.Interactive.Monitor.{Callbacks, Feed, State, callback}
use canopen_tools.Interactive.Monitor.Races.{
  differs, Pending, Fine, whole, calls, stores, fine, fines, IsCalm, IsUnraced, AllUnraced,
  LeavesFine, IsKnown, IsOther, act-IsKnown,
}

module _ {N K V : Type 0} (lib : Callbacks N K) (same : K → K → Bool) (laws : CallbacksLaws lib)
    (same_refl : (j : K) → same j j ≡ true) (same→≡ : (j k : K) → same j k ≡ true → j ≡ k) where
  -- The monitor records every registered callback, and the one that waits is recorded.
  record Inv (t : State N K V × Pending K V) : Type 0 where
    tracked : IsTracked lib same t.0
    known : IsKnown lib same t.0 t.1

  -- A waiting callback stores the value of a key that is recorded.
  callback-IsTracked :
      (j : K) (v : V) (w : N) (f : Feed K V)
      → IsTracked lib same (w, f)
      → get same j f.callbacks ≢ none
      → IsTracked lib same (w, callback lib same j v f)
  unfolding callback
  callback-IsTracked j v w f h known = record {
    known = h.known;
    listed = λ k e. elim (Bool-cases (same k j)) [
      | inl i ↦ absurd (known (cc (same→≡ k j i, e)))
      | inr other ↦ get-set_other same same→≡ k j other v f.subscribed ∙ h.listed k e
    ];
  }

  called-IsKnown :
      (j : K) (ref : ℕ) (v : V) (s : State N K V)
      → IsTracked lib same s
      → IsKnown lib same s (if lib.live j ref s.0 then some (j, v) else none)
  called-IsKnown j ref v s h = elim (Bool-cases (lib.live j ref s.0)) [
    | inl alive ↦ rw alive (λ gone. cc (h.known j ref alive, gone))
    | inr dead ↦ rw dead tt
  ]

  fine-Inv :
      (x : Fine K V) (t : State N K V × Pending K V)
      → IsUnraced lib same x t
      → Inv t
      → Inv (fine lib same x t)
  fine-Inv (whole a) (s, p) (first, calm) h = record {
    tracked = act-IsTracked lib same laws same_refl same→≡ a s first h.tracked;
    known = act-IsKnown lib same laws same_refl same→≡ a s p calm h.known;
  }
  fine-Inv (calls j ref v) (s, none) u h = record {
    tracked = h.tracked;
    known = called-IsKnown j ref v s h.tracked;
  }
  fine-Inv (calls j ref v) (s, some q) u h = h
  fine-Inv stores (s, none) u h = h
  fine-Inv stores ((w, f), some (j, v)) u h = record {
    tracked = callback-IsTracked j v w f h.tracked h.known;
    known = tt;
  }

  fines-Inv :
      (xs : List (Fine K V)) (t : State N K V × Pending K V)
      → AllUnraced lib same xs t
      → Inv t
      → Inv (fines lib same xs t)
  fines-Inv [] t u h = h
  fines-Inv (x ∷ xs) t (u, us) h = fines-Inv xs (fine lib same x t) us (fine-Inv x t u h)

  module _ (k : K) where
    -- The key is not shown, and nothing that waits or arrives can show it.
    record Gone (t : State N K V × Pending K V) : Type 0 where
      hidden : IsHidden lib same k t.0
      other : IsOther lib same k t.1

    called-IsOther :
        (j : K) (ref : ℕ) (v : V) (s : State N K V)
        → IsHidden lib same k s
        → IsOther lib same k (if lib.live j ref s.0 then some (j, v) else none)
    called-IsOther j ref v s h = elim (Bool-cases (lib.live j ref s.0)) [
      | inl alive ↦ rw alive (λ e. h.not_live ref (rw (sym e) alive))
      | inr dead ↦ rw dead tt
    ]

    callback-IsHidden :
        (j : K) (v : V) (w : N) (f : Feed K V)
        → j ≢ k
        → IsHidden lib same k (w, f)
        → IsHidden lib same k (w, callback lib same j v f)
    unfolding callback
    callback-IsHidden j v w f other h = record {
      not_shown =
          get-set_other same same→≡ k j (differs same same→≡ k j (λ e. other (sym e))) v
            f.subscribed
          ∙ h.not_shown;
      not_recorded = h.not_recorded;
      not_live = h.not_live;
    }

    fine-Gone :
        (x : Fine K V) (t : State N K V × Pending K V)
        → LeavesFine lib same k x
        → Gone t
        → Gone (fine lib same x t)
    fine-Gone (whole a) (s, p) leaves h = record {
      hidden = act-IsHidden lib same laws same_refl same→≡ k a s leaves h.hidden;
      other = h.other;
    }
    fine-Gone (calls j ref v) (s, none) leaves h = record {
      hidden = h.hidden;
      other = called-IsOther j ref v s h.hidden;
    }
    fine-Gone (calls j ref v) (s, some q) leaves h = h
    fine-Gone stores (s, none) leaves h = h
    fine-Gone stores ((w, f), some (j, v)) leaves h = record {
      hidden = callback-IsHidden j v w f h.other h.hidden;
      other = tt;
    }

    fines-Gone :
        (xs : List (Fine K V)) (t : State N K V × Pending K V)
        → All (LeavesFine lib same k) xs
        → Gone t
        → Gone (fines lib same xs t)
    fines-Gone [] t all h = h
    fines-Gone (x ∷ xs) t (leaves, all) h =
        fines-Gone xs (fine lib same x t) all (fine-Gone x t leaves h)

    calm-IsOther :
        (u : Act K V) (p : Pending K V)
        → Removes lib same k u
        → IsCalm lib same u p
        → IsOther lib same k p
    calm-IsOther u none removes calm = tt
    calm-IsOther (unsubscribes_pdo j) (some (i, v)) removes calm = rw (sym removes) calm
    calm-IsOther (unsubscribes_heartbeat j) (some (i, v)) removes calm = rw (sym removes) calm
    calm-IsOther _ (some (i, v)) removes calm = elim removes [ ]

    stays_hidden :
        (later : List (Fine K V)) (s t : State N K V) (p : Pending K V)
        → All (LeavesFine lib same k) later
        → IsOther lib same k p
        → (IsHidden lib same k t ⊎ IsLeft lib same k s t)
        → (get same k (fines lib same later (t, p)).0.1.subscribed ≡ none) ⊎ IsLeft lib same k s t
    stays_hidden later s t p leaves other (inl hidden) =
        let rest = fines-Gone later (t, p) leaves (record { hidden = hidden; other = other }) in
        inl rest.hidden.not_shown
    stays_hidden later s t p leaves other (inr left) = inr left

    -- A monitor records every registered callback, and none waits for the lock. Then come any
    -- subscriptions, removals and events, in which a callback may wait for the lock while others take
    -- it; no key is subscribed again before it is removed, no removal leaves its callback registered
    -- with the library, and no key is removed while a callback of this key waits. If a key is then
    -- unsubscribed, its lookup finding the PDO, no callback of the key waiting and no interrupt
    -- arriving, whether the library can remove the callback or not, then the key is no longer shown,
    -- and one of two things holds: it stays so whatever happens, until it is subscribed again; or the
    -- library still holds the callback that was recorded, and its next event shows the key again. A
    -- subscription and a removal are one step each. The library's callback lists are as `CallbacksLaws`
    -- says, it calls one callback at a time, and `same` decides the equality of keys.
    pub removed_stays_hidden :
        (u : Act K V) (before later : List (Fine K V)) (s : State N K V)
        → IsTracked lib same s
        → AllUnraced lib same before (s, none)
        → Removes lib same k u
        → Goes lib same u (fines lib same before (s, none)).0
        → IsCalm lib same u (fines lib same before (s, none)).1
        → All (LeavesFine lib same k) later
        → (get same k (fine lib same (whole u) (fines lib same before (s, none))).0.1.subscribed
            ≡ none)
          × ((get same k
                  (fines lib same later
                    (fine lib same (whole u) (fines lib same before (s, none)))).0.1.subscribed
                ≡ none)
              ⊎ IsLeft lib same k
                  (fines lib same before (s, none)).0
                  (act lib same u (fines lib same before (s, none)).0))
    removed_stays_hidden u before later s tracked unraced removes goes calm leaves =
        let inv = fines-Inv before (s, none) unraced (record { tracked = tracked; known = tt }) in
        let t = fines lib same before (s, none) in
        let gone =
          removal-Removed lib same laws same_refl same→≡ k u t.0 removes goes inv.tracked in
        (
          gone.0,
          stays_hidden later t.0 (act lib same u t.0) t.1 leaves (calm-IsOther u t.1 removes calm)
              gone.1,
        )
