-- ===== src/Interactive/Monitor/Races.antt =====
-- `EventMonitor` of canopen-interactive/co.py beside the thread of python-canopen that calls its
-- callbacks: a callback that was called stores its value only once it has the lock.
pub mod Stays
use canopen_tools.Prelude.{
  ℕ, Bool, true, false, ◌≡◌, ◌≢◌, refl, sym, ◌∙◌, inl, inr, Option, none, some, List, [], ◌∷◌, All,
  Bool-cases, Option-cases, if◌then◌else◌,
}
use canopen_tools.Outcome.{Result, ok, raise, is_exception}
use canopen_tools.Interactive.Dict.{get, get-set, get-set_other, get-pop_other}
use canopen_tools.Interactive.Monitor.Laws.{CallbacksLaws}
use canopen_tools.Interactive.Monitor.Hidden.{
  Act, subscribes_pdo, subscribes_heartbeat, unsubscribes_pdo, unsubscribes_heartbeat, Removes,
  arrives, act, IsFirst, IsTracked, IsHidden, Leaves, act-IsHidden,
}
use canopen_tools.Interactive.Monitor.Tracked.{act-IsTracked}
use canopen_tools.Interactive.Monitor.{
  Callbacks, Feed, State, callback, recorded, subscribe_pdo, subscribe_heartbeat, forget, removed,
  unsubscribe_found, unsubscribe_looked_up, unsubscribe_pdo, unsubscribe_heartbeat, arrive,
}

pub differs :
    {K : Type 0} (same : K → K → Bool)
    → ((j k : K) → same j k ≡ true → j ≡ k)
    → (i j : K) → i ≢ j
    → same i j ≡ false
differs same same→≡ i j n = elim (Bool-cases (same i j)) [
  | inl e ↦ absurd (n (same→≡ i j e))
  | inr e ↦ e
]

-- A callback that was called and has not stored yet; the library has one thread for them.
abbrev pub Pending : Type 0 → Type 0 → Type 0
Pending K V = Option (K × V)

-- A step of the main thread as a whole, or of a callback up to the lock, or under it.
pub data Fine (K V : Type 0) : Type 0 where
  whole : Act K V → Fine K V
  calls : K → ℕ → V → Fine K V
  stores : Fine K V

module _ {N K V : Type 0} (lib : Callbacks N K) (same : K → K → Bool) where
  abbrev pub fine : Fine K V → State N K V × Pending K V → State N K V × Pending K V
  fine (whole a) (s, p) = (act lib same a s, p)
  fine (calls j ref v) (s, none) = (s, if lib.live j ref s.0 then some (j, v) else none)
  fine (calls j ref v) (s, some q) = (s, some q)
  fine stores (s, none) = (s, none)
  fine stores ((w, f), some (j, v)) = ((w, callback lib same j v f), none)

  abbrev pub fines : List (Fine K V) → State N K V × Pending K V → State N K V × Pending K V
  fines [] t = t
  fines (x ∷ xs) t = fines xs (fine x t)

  -- No callback of the key that is removed waits for the lock.
  abbrev pub IsCalm : Act K V → Pending K V → Type 0
  IsCalm (unsubscribes_pdo j) (some (i, v)) = i ≢ j
  IsCalm (unsubscribes_heartbeat j) (some (i, v)) = i ≢ j
  IsCalm _ p = Unit

  -- Nothing is subscribed twice, and no removal leaves its callback registered or races it.
  abbrev pub IsUnraced : Fine K V → State N K V × Pending K V → Type 0
  IsUnraced (whole a) (s, p) = IsFirst lib same a s × IsCalm a p
  IsUnraced _ t = Unit

  abbrev pub AllUnraced : List (Fine K V) → State N K V × Pending K V → Type 0
  AllUnraced [] t = Unit
  AllUnraced (x ∷ xs) t = IsUnraced x t × AllUnraced xs (fine x t)

  abbrev pub LeavesFine : K → Fine K V → Type 0
  LeavesFine k (whole a) = Leaves lib same k a
  LeavesFine k _ = Unit

  abbrev pub IsKnown : State N K V → Pending K V → Type 0
  IsKnown s none = Unit
  IsKnown s (some (j, v)) = get same j s.1.callbacks ≢ none

  abbrev pub IsOther : K → Pending K V → Type 0
  IsOther k none = Unit
  IsOther k (some (j, v)) = j ≢ k

  module _ (laws : CallbacksLaws lib) (same_refl : (j : K) → same j j ≡ true)
      (same→≡ : (j k : K) → same j k ≡ true → j ≡ k) where
    recorded-IsKnown :
        (j : K) (ref : ℕ) (s : State N K V) (r : Result N) (p : Pending K V)
        → IsKnown s p
        → IsKnown (recorded lib same j ref s r).1 p
    unfolding recorded
    recorded-IsKnown j ref s (raise e) p h = h
    recorded-IsKnown j ref s (ok n) none h = tt
    recorded-IsKnown j ref (w, f) (ok n) (some (i, v)) h = elim (Bool-cases (same i j)) [
      | inl e ↦ λ gone. cc (same→≡ i j e, get-set same same_refl same→≡ j ref f.callbacks, gone)
      | inr other ↦ λ gone. h (sym (get-set_other same same→≡ i j other ref f.callbacks) ∙ gone)
    ]

    forget-IsKnown :
        (j i : K) (v : V) (w n : N) (f : Feed K V)
        → i ≢ j
        → IsKnown (w, f) (some (i, v))
        → IsKnown (n, forget lib same j f) (some (i, v))
    unfolding forget
    forget-IsKnown j i v w n f calm h = λ gone.
        h (sym (get-pop_other same same→≡ i j (differs same same→≡ i j calm) f.callbacks) ∙ gone)

    removed-IsKnown :
        (j i : K) (v : V) (s : State N K V) (r : Result N)
        → i ≢ j
        → IsKnown s (some (i, v))
        → IsKnown (removed lib same j s r).1 (some (i, v))
    unfolding removed
    removed-IsKnown j i v (w, f) (ok n) calm h = forget-IsKnown j i v w n f calm h
    removed-IsKnown j i v (w, f) (raise e) calm h = elim (Bool-cases (is_exception e)) [
      | inl caught ↦ rw caught (forget-IsKnown j i v w w f calm h)
      | inr passed ↦ rw passed h
    ]

    unsubscribe-IsKnown :
        (j i : K) (v : V) (s : State N K V)
        → i ≢ j
        → IsKnown s (some (i, v))
        → IsKnown (unsubscribe_found lib same j s (get same j s.1.callbacks)).1 (some (i, v))
    unfolding unsubscribe_found
    unsubscribe-IsKnown j i v s calm h = elim (Option-cases (get same j s.1.callbacks)) [
      | inl none_there ↦ rw none_there h
      | inr (ref, there) ↦ rw there (removed-IsKnown j i v s (lib.remove j ref s.0) calm h)
    ]

    looked_up-IsKnown :
        (j i : K) (v : V) (s : State N K V) (found : Result (Unit {0}))
        → i ≢ j
        → IsKnown s (some (i, v))
        → IsKnown (unsubscribe_looked_up lib same j s found).1 (some (i, v))
    unfolding unsubscribe_looked_up
    looked_up-IsKnown j i v s (ok u) calm h = unsubscribe-IsKnown j i v s calm h
    looked_up-IsKnown j i v s (raise e) calm h = h

    arrive-IsKnown :
        (j : K) (ref : ℕ) (v : V) (s : State N K V) (i : K) (u : V)
        → IsKnown s (some (i, u))
        → IsKnown (arrive lib same j ref v s) (some (i, u))
    unfolding arrive callback
    arrive-IsKnown j ref v (w, f) i u h = elim (Bool-cases (lib.live j ref w)) [
      | inl alive ↦ rw alive h
      | inr dead ↦ rw dead h
    ]

    pub act-IsKnown :
        (a : Act K V) (s : State N K V) (p : Pending K V)
        → IsCalm a p
        → IsKnown s p
        → IsKnown (act lib same a s) p
    unfolding subscribe_pdo subscribe_heartbeat unsubscribe_pdo unsubscribe_heartbeat
    act-IsKnown a s none calm h = tt
    act-IsKnown (subscribes_pdo j ref) s (some (i, v)) calm h =
        recorded-IsKnown j ref s _ (some (i, v)) h
    act-IsKnown (subscribes_heartbeat j ref) s (some (i, v)) calm h =
        recorded-IsKnown j ref s _ (some (i, v)) h
    act-IsKnown (unsubscribes_pdo j) s (some (i, v)) calm h =
        looked_up-IsKnown j i v s (lib.find j s.0) calm h
    act-IsKnown (unsubscribes_heartbeat j) s (some (i, v)) calm h =
        unsubscribe-IsKnown j i v s calm h
    act-IsKnown (arrives j ref v) s (some (i, u)) calm h = arrive-IsKnown j ref v s i u h
