-- ===== src/Interactive/Monitor/Laws.antt =====
-- The callback lists of python-canopen, as canopen-interactive/co.py relies on them.
use canopen_tools.Prelude.{ℕ, Bool, true, false, ◌≡◌, ◌≢◌, ◌⊎◌}
use canopen_tools.Outcome.{Result, ok, raise, attribute_error, ◌>>◌}
use canopen_tools.Interactive.Monitor.{Callbacks, or_append}

-- What the tool relies on of the library: a registration adds one callback, and a removal that does not
-- fail takes one away. Nothing is said of a removal that fails.
pub record CallbacksLaws {N K : Type 0} (lib : Callbacks N K) : Type 0 where
  pub add_live :
      (j k : K) (ref r : ℕ) (w n : N)
      → lib.add j ref w ≡ ok n
      → lib.live k r n ≡ true
      → ((k ≡ j) × (r ≡ ref)) ⊎ (lib.live k r w ≡ true)
  pub append_live :
      (j k : K) (ref r : ℕ) (w n : N)
      → lib.append j ref w ≡ ok n
      → lib.live k r n ≡ true
      → ((k ≡ j) × (r ≡ ref)) ⊎ (lib.live k r w ≡ true)
  pub remove_live :
      (j k : K) (ref r : ℕ) (w n : N)
      → lib.remove j ref w ≡ ok n
      → lib.live k r n ≡ true
      → (lib.live k r w ≡ true) × (¬ ((k ≡ j) × (r ≡ ref)))

module _ {N K : Type 0} (lib : Callbacks N K) where
  -- A registration, as far as it succeeds, adds one callback.
  abbrev pub Grows : K → ℕ → N → Result N → Type 0
  Grows j ref w r =
      (n : N)
      → r ≡ ok n
      → (k : K) (q : ℕ) → lib.live k q n ≡ true
      → ((k ≡ j) × (q ≡ ref)) ⊎ (lib.live k q w ≡ true)

  -- What a removal leaves was registered before.
  abbrev pub Shrinks : K → N → Result N → Type 0
  Shrinks k w r = (n : N) → r ≡ ok n → (q : ℕ) → lib.live k q n ≡ true → lib.live k q w ≡ true

  module _ (laws : CallbacksLaws lib) where
    pub add-Grows : (j : K) (ref : ℕ) (w : N) → Grows j ref w (lib.add j ref w)
    add-Grows j ref w n e k q = laws.add_live j k ref q w n e

    -- A registration behind a lookup.
    pub found-Grows :
        (j : K) (ref : ℕ) (w : N) (found : Result (Unit {0}))
        → Grows j ref w (found >> lib.add j ref w)
    found-Grows j ref w (ok u) = add-Grows j ref w
    found-Grows j ref w (raise x) = λ n e. cc e

    pub or_append-Grows :
        (j : K) (ref : ℕ) (w : N) (r : Result N)
        → Grows j ref w r
        → Grows j ref w (or_append lib j ref w r)
    unfolding or_append
    or_append-Grows j ref w (ok m) h = h
    or_append-Grows j ref w (raise attribute_error) h = λ n e k q. laws.append_live j k ref q w n e
    or_append-Grows j ref w (raise _) h = h

pub differ :
    {K : Type 0} (same : K → K → Bool)
    → ((j : K) → same j j ≡ true)
    → (k j : K) → same k j ≡ false
    → k ≢ j
differ same same_refl k j other e = cc (same_refl j)
