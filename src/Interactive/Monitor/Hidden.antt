-- ===== src/Interactive/Monitor/Hidden.antt =====
-- Runs of `EventMonitor` of canopen-interactive/co.py: subscriptions, events and removals in any
-- order.
use canopen_tools.Prelude.{
  ℕ, Bool, true, false, ◌≡◌, ◌≢◌, refl, sym, ap, ◌∙◌, inl, inr, none, some, List, [], ◌∷◌,
  Bool-cases, Option-cases,
}
use canopen_tools.Outcome.{Exn, Result, ok, raise, is_exception, IsCaught}
use canopen_tools.Interactive.Dict.{get, get-set_other, get-pop_other}
use canopen_tools.Interactive.Monitor.Laws.{
  CallbacksLaws, Grows, Shrinks, add-Grows, found-Grows, or_append-Grows, differ,
}
use canopen_tools.Interactive.Monitor.{
  Callbacks, State, callback, recorded, subscribe_pdo, subscribe_heartbeat, forget, removed,
  unsubscribe_found, unsubscribe_looked_up, unsubscribe_pdo, unsubscribe_heartbeat, arrive,
}

-- What happens to a monitor; an exception of a subscription is printed by the menu.
pub data Act (K V : Type 0) : Type 0 where
  subscribes_pdo subscribes_heartbeat : K → ℕ → Act K V
  unsubscribes_pdo unsubscribes_heartbeat : K → Act K V
  arrives : K → ℕ → V → Act K V

module _ {N K V : Type 0} (lib : Callbacks N K) (same : K → K → Bool) where
  abbrev pub act : Act K V → State N K V → State N K V
  act (subscribes_pdo j ref) s = (subscribe_pdo lib same j ref s).1
  act (subscribes_heartbeat j ref) s = (subscribe_heartbeat lib same j ref s).1
  act (unsubscribes_pdo j) s = (unsubscribe_pdo lib same j s).1
  act (unsubscribes_heartbeat j) s = (unsubscribe_heartbeat lib same j s).1
  act (arrives j ref v) s = arrive lib same j ref v s

  abbrev pub acts : List (Act K V) → State N K V → State N K V
  acts [] s = s
  acts (a ∷ rest) s = acts rest (act a s)

  -- A removal that fails, fails with an `Exception` and for a callback that is not registered.
  abbrev pub IsDropped : K → State N K V → Type 0
  IsDropped j s =
      (ref : ℕ) (e : Exn)
      → get same j s.1.callbacks ≡ some ref
      → lib.remove j ref s.0 ≡ raise e
      → (lib.live j ref s.0 ≡ false) × (is_exception e ≡ true)

  -- Only keys that have no callback yet are subscribed, and no removal leaves its callback registered.
  abbrev pub IsFirst : Act K V → State N K V → Type 0
  IsFirst (subscribes_pdo j ref) s = get same j s.1.callbacks ≡ none
  IsFirst (subscribes_heartbeat j ref) s = get same j s.1.callbacks ≡ none
  IsFirst (unsubscribes_pdo j) s = IsDropped j s
  IsFirst (unsubscribes_heartbeat j) s = IsDropped j s
  IsFirst _ s = Unit

  abbrev pub AllFirst : List (Act K V) → State N K V → Type 0
  AllFirst [] s = Unit
  AllFirst (a ∷ rest) s = IsFirst a s × AllFirst rest (act a s)

  -- Every registered callback is recorded, and only recorded keys are shown.
  pub record IsTracked (s : State N K V) : Type 0 where
    pub known : (k : K) (r : ℕ) → lib.live k r s.0 ≡ true → get same k s.1.callbacks ≡ some r
    pub listed : (k : K) → get same k s.1.callbacks ≡ none → get same k s.1.subscribed ≡ none

  -- The key is not shown, and nothing that arrives can show it.
  pub record IsHidden (k : K) (s : State N K V) : Type 0 where
    pub not_shown : get same k s.1.subscribed ≡ none
    pub not_recorded : get same k s.1.callbacks ≡ none
    pub not_live : (r : ℕ) → lib.live k r s.0 ≢ true

  -- The removal of the key.
  abbrev pub Removes : K → Act K V → Type 0
  Removes k (unsubscribes_pdo j) = j ≡ k
  Removes k (unsubscribes_heartbeat j) = j ≡ k
  Removes k _ = ⊥

  -- No interrupt arrives while the library removes the callback, whether it can or not.
  abbrev pub IsCalmRemoval : K → State N K V → Type 0
  IsCalmRemoval j s =
      (ref : ℕ) → get same j s.1.callbacks ≡ some ref → IsCaught (lib.remove j ref s.0)

  -- The removal is not interrupted, and that of a PDO finds the PDO.
  abbrev pub Goes : Act K V → State N K V → Type 0
  Goes (unsubscribes_pdo j) s = (lib.find j s.0 ≡ ok tt) × IsCalmRemoval j s
  Goes (unsubscribes_heartbeat j) s = IsCalmRemoval j s
  Goes _ s = Unit

  -- The library still holds the callback that was recorded for the key before the removal, and its
  -- next event shows the key again.
  pub record IsLeft (k : K) (before after : State N K V) : Type 0 where
    pub ref : ℕ
    pub recorded_before : get same k before.1.callbacks ≡ some ref
    pub still_live : lib.live k ref after.0 ≡ true
    pub shows_again : (v : V) → get same k (arrive lib same k ref v after).1.subscribed ≡ some v

  -- A step that does not subscribe the key.
  abbrev pub Leaves : K → Act K V → Type 0
  Leaves k (subscribes_pdo j ref) = same k j ≡ false
  Leaves k (subscribes_heartbeat j ref) = same k j ≡ false
  Leaves k _ = Unit

  module _ (laws : CallbacksLaws lib) (same_refl : (j : K) → same j j ≡ true)
      (same→≡ : (j k : K) → same j k ≡ true → j ≡ k) where
    module _ (k : K) where
      recorded-IsHidden :
          (j : K) (ref : ℕ) (s : State N K V) (r : Result N)
          → same k j ≡ false
          → Grows lib j ref s.0 r
          → IsHidden k s
          → IsHidden k (recorded lib same j ref s r).1
      unfolding recorded
      recorded-IsHidden j ref s (raise e) other grows h = h
      recorded-IsHidden j ref (w, f) (ok n) other grows h = record {
        not_shown = h.not_shown;
        not_recorded = get-set_other same same→≡ k j other ref f.callbacks ∙ h.not_recorded;
        not_live = λ q l. elim (grows n refl k q l) [
          | inl (e, i) ↦ differ same same_refl k j other e
          | inr before ↦ h.not_live q before
        ];
      }

      removed-IsHidden :
          (j : K) (s : State N K V) (r : Result N)
          → same k j ≡ false
          → Shrinks lib k s.0 r
          → IsHidden k s
          → IsHidden k (removed lib same j s r).1
      unfolding removed forget
      removed-IsHidden j (w, f) (ok n) other shrinks h = record {
        not_shown = get-pop_other same same→≡ k j other f.subscribed ∙ h.not_shown;
        not_recorded = get-pop_other same same→≡ k j other f.callbacks ∙ h.not_recorded;
        not_live = λ q l. h.not_live q (shrinks n refl q l);
      }
      removed-IsHidden j (w, f) (raise e) other shrinks h = elim (Bool-cases (is_exception e)) [
        | inl caught ↦ rw caught (record {
          not_shown = get-pop_other same same→≡ k j other f.subscribed ∙ h.not_shown;
          not_recorded = get-pop_other same same→≡ k j other f.callbacks ∙ h.not_recorded;
          not_live = h.not_live;
        })
        | inr passed ↦ rw passed h
      ]

      unsubscribe-IsHidden :
          (j : K) (s : State N K V)
          → IsHidden k s
          → IsHidden k (unsubscribe_found lib same j s (get same j s.1.callbacks)).1
      unfolding unsubscribe_found
      unsubscribe-IsHidden j s h = elim (Bool-cases (same k j)) [
        | inl e ↦ rw (sym (same→≡ k j e), h.not_recorded) h
        | inr other ↦ elim (Option-cases (get same j s.1.callbacks)) [
          | inl none_there ↦ rw none_there h
          | inr (ref, there) ↦ rw there (
              removed-IsHidden j s (lib.remove j ref s.0) other
                (λ n e q l. (laws.remove_live j k ref q s.0 n e l).0) h)
        ]
      ]

      looked_up-IsHidden :
          (j : K) (s : State N K V) (found : Result (Unit {0}))
          → IsHidden k s
          → IsHidden k (unsubscribe_looked_up lib same j s found).1
      unfolding unsubscribe_looked_up
      looked_up-IsHidden j s (ok u) h = unsubscribe-IsHidden j s h
      looked_up-IsHidden j s (raise e) h = h

      arrive-IsHidden :
          (j : K) (ref : ℕ) (v : V) (s : State N K V)
          → IsHidden k s
          → IsHidden k (arrive lib same j ref v s)
      unfolding arrive callback
      arrive-IsHidden j ref v (w, f) h = elim (Bool-cases (lib.live j ref w)) [
        | inr dead ↦ rw dead h
        | inl alive ↦ rw alive (elim (Bool-cases (same k j)) [
          | inl e ↦ absurd (h.not_live ref (ap (λ i. lib.live i ref w) (same→≡ k j e) ∙ alive))
          | inr other ↦ record {
            not_shown = get-set_other same same→≡ k j other v f.subscribed ∙ h.not_shown;
            not_recorded = h.not_recorded;
            not_live = h.not_live;
          }
        ])
      ]

      pub act-IsHidden :
          (a : Act K V) (s : State N K V) → Leaves k a → IsHidden k s → IsHidden k (act a s)
      unfolding subscribe_pdo subscribe_heartbeat unsubscribe_pdo unsubscribe_heartbeat
      act-IsHidden (subscribes_pdo j ref) s other h =
          recorded-IsHidden j ref s _ other (found-Grows lib laws j ref s.0 (lib.find j s.0)) h
      act-IsHidden (subscribes_heartbeat j ref) s other h =
          recorded-IsHidden j ref s _ other
            (or_append-Grows lib laws j ref s.0 _ (add-Grows lib laws j ref s.0)) h
      act-IsHidden (unsubscribes_pdo j) s other h = looked_up-IsHidden j s (lib.find j s.0) h
      act-IsHidden (unsubscribes_heartbeat j) s other h = unsubscribe-IsHidden j s h
      act-IsHidden (arrives j ref v) s other h = arrive-IsHidden j ref v s h
