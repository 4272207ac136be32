-- ===== src/Interactive/Monitor/Tracked.antt =====
-- What `EventMonitor` of canopen-interactive/co.py records of the callbacks it registered.
use canopen_tools.Prelude.{
  ℕ, Bool, true, false, ◌≡◌, ◌≢◌, refl, sym, ◌∙◌, inl, inr, none, some, Bool-cases, Option-cases,
}
use canopen_tools.Outcome.{Result, ok, raise}
use canopen_tools.Interactive.Dict.{get, get-pop, get-set, get-set_other, get-pop_other}
use canopen_tools.Interactive.Monitor.Laws.{
  CallbacksLaws, Grows, add-Grows, found-Grows, or_append-Grows,
}
use canopen_tools.Interactive.Monitor.Hidden.{
  Act, subscribes_pdo, subscribes_heartbeat, unsubscribes_pdo, unsubscribes_heartbeat, arrives, act,
  IsFirst, IsTracked, IsDropped,
}
use canopen_tools.Interactive.Monitor.{
  Callbacks, Feed, State, callback, recorded, subscribe_pdo, subscribe_heartbeat, forget, removed,
  unsubscribe_found, unsubscribe_looked_up, unsubscribe_pdo, unsubscribe_heartbeat, arrive,
}

module _ {N K V : Type 0} (lib : Callbacks N K) (same : K → K → Bool) (laws : CallbacksLaws lib)
    (same_refl : (j : K) → same j j ≡ true) (same→≡ : (j k : K) → same j k ≡ true → j ≡ k) where
  abbrev Tracked : State N K V → Type 0
  Tracked = IsTracked lib same

  recorded-IsTracked :
      (j : K) (ref : ℕ) (s : State N K V) (r : Result N)
      → get same j s.1.callbacks ≡ none
      → Grows lib j ref s.0 r
      → Tracked s
      → Tracked (recorded lib same j ref s r).1
  unfolding recorded
  recorded-IsTracked j ref s (raise e) new grows h = h
  recorded-IsTracked j ref (w, f) (ok n) new grows h = record {
    known = λ k q l. elim (grows n refl k q l) [
      | inl (e, i) ↦ rw (e, i) (get-set same same_refl same→≡ j ref f.callbacks)
      | inr before ↦ elim (Bool-cases (same k j)) [
        | inl e ↦ absurd (cc (same→≡ k j e, h.known k q before, new))
        | inr other ↦ get-set_other same same→≡ k j other ref f.callbacks ∙ h.known k q before
      ]
    ];
    listed = λ k e. elim (Bool-cases (same k j)) [
      | inl i ↦ absurd (cc (same→≡ k j i, e, get-set same same_refl same→≡ j ref f.callbacks))
      | inr other ↦ h.listed k (sym (get-set_other same same→≡ k j other ref f.callbacks) ∙ e)
    ];
  }

  -- Both entries are dropped once no callback is registered for the key.
  forget-IsTracked :
      (j : K) (w n : N) (f : Feed K V)
      → ((k : K) (q : ℕ) → lib.live k q n ≡ true → (lib.live k q w ≡ true) × (k ≢ j))
      → Tracked (w, f)
      → Tracked (n, forget lib same j f)
  unfolding forget
  forget-IsTracked j w n f lives h = record {
    known = λ k q l. elim (Bool-cases (same k j)) [
      | inl e ↦ absurd ((lives k q l).1 (same→≡ k j e))
      | inr other ↦ get-pop_other same same→≡ k j other f.callbacks ∙ h.known k q (lives k q l).0
    ];
    listed = λ k e. elim (Bool-cases (same k j)) [
      | inl i ↦ rw (same→≡ k j i) (get-pop same j f.subscribed)
      | inr other ↦
          get-pop_other same same→≡ k j other f.subscribed
          ∙ h.listed k (sym (get-pop_other same same→≡ k j other f.callbacks) ∙ e)
    ];
  }

  -- After the removal of the recorded callback, none is registered for the key.
  pub gone :
      (j : K) (ref : ℕ) (w n : N) (f : Feed K V)
      → get same j f.callbacks ≡ some ref
      → Tracked (w, f)
      → lib.remove j ref w ≡ ok n
      → (k : K) (q : ℕ) → lib.live k q n ≡ true
      → (lib.live k q w ≡ true) × (k ≢ j)
  gone j ref w n f there h e k q l = (kept.0, λ i. kept.1 (i, cc (i, h.known k q kept.0, there)))
    where
      kept : (lib.live k q w ≡ true) × (¬ ((k ≡ j) × (q ≡ ref)))
      kept = laws.remove_live j k ref q w n e l

  pub was_gone :
      (j : K) (ref : ℕ) (w : N) (f : Feed K V)
      → get same j f.callbacks ≡ some ref
      → Tracked (w, f)
      → lib.live j ref w ≡ false
      → (k : K) (q : ℕ) → lib.live k q w ≡ true
      → (lib.live k q w ≡ true) × (k ≢ j)
  was_gone j ref w f there h dead k q l = (l, λ i. alive i (cc (i, h.known k q l, there)))
    where
      alive : k ≡ j → q ≡ ref → ⊥
      alive i e = cc (i, e, l, dead)

  -- What a removal comes to, its failure included.
  removed-forget :
      (j : K) (ref : ℕ) (s : State N K V) (r : Result N)
      → lib.remove j ref s.0 ≡ r
      → get same j s.1.callbacks ≡ some ref
      → IsDropped lib same j s
      → Tracked s
      → (n : N) × ((removed lib same j s r).1 ≡ (n, forget lib same j s.1))
        × ((k : K) (q : ℕ) → lib.live k q n ≡ true → (lib.live k q s.0 ≡ true) × (k ≢ j))
  unfolding removed
  removed-forget j ref (w, f) (ok n) e there drops h = (n, refl, gone j ref w n f there h e)
  removed-forget j ref (w, f) (raise x) e there drops h =
      let (dead, caught) = drops ref x there e in
      rw caught (w, refl, was_gone j ref w f there h dead)

  unsubscribe-IsTracked :
      (j : K) (s : State N K V)
      → IsDropped lib same j s
      → Tracked s
      → Tracked (unsubscribe_found lib same j s (get same j s.1.callbacks)).1
  unfolding unsubscribe_found
  unsubscribe-IsTracked j s drops h = elim (Option-cases (get same j s.1.callbacks)) [
    | inl none_there ↦ rw none_there h
    | inr (ref, there) ↦ rw there (after ref there)
  ]
    where
      after :
          (ref : ℕ)
          → get same j s.1.callbacks ≡ some ref
          → Tracked (removed lib same j s (lib.remove j ref s.0)).1
      after ref there =
          let (n, e, lives) = removed-forget j ref s (lib.remove j ref s.0) refl there drops h in
          rw e (forget-IsTracked j s.0 n s.1 lives h)

  looked_up-IsTracked :
      (j : K) (s : State N K V) (found : Result (Unit {0}))
      → IsDropped lib same j s
      → Tracked s
      → Tracked (unsubscribe_looked_up lib same j s found).1
  unfolding unsubscribe_looked_up
  looked_up-IsTracked j s (ok u) drops h = unsubscribe-IsTracked j s drops h
  looked_up-IsTracked j s (raise e) drops h = h

  arrive-IsTracked :
      (j : K) (ref : ℕ) (v : V) (s : State N K V) → Tracked s → Tracked (arrive lib same j ref v s)
  unfolding arrive callback
  arrive-IsTracked j ref v (w, f) h = elim (Bool-cases (lib.live j ref w)) [
    | inr dead ↦ rw dead h
    | inl alive ↦ rw alive (record {
      known = h.known;
      listed = λ k e. elim (Bool-cases (same k j)) [
        | inl i ↦ absurd (cc (same→≡ k j i, e, h.known j ref alive))
        | inr other ↦ get-set_other same same→≡ k j other v f.subscribed ∙ h.listed k e
      ];
    })
  ]

  pub act-IsTracked :
      (a : Act K V) (s : State N K V)
      → IsFirst lib same a s
      → Tracked s
      → Tracked (act lib same a s)
  unfolding subscribe_pdo subscribe_heartbeat unsubscribe_pdo unsubscribe_heartbeat
  act-IsTracked (subscribes_pdo j ref) s new h =
      recorded-IsTracked j ref s _ new (found-Grows lib laws j ref s.0 (lib.find j s.0)) h
  act-IsTracked (subscribes_heartbeat j ref) s new h =
      recorded-IsTracked j ref s _ new
        (or_append-Grows lib laws j ref s.0 _ (add-Grows lib laws j ref s.0)) h
  act-IsTracked (unsubscribes_pdo j) s drops h = looked_up-IsTracked j s (lib.find j s.0) drops h
  act-IsTracked (unsubscribes_heartbeat j) s drops h = unsubscribe-IsTracked j s drops h
  act-IsTracked (arrives j ref v) s new h = arrive-IsTracked j ref v s h
