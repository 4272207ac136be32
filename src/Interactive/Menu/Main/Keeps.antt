-- ===== src/Interactive/Menu/Main/Keeps.antt =====
-- What every action keeps holds in any session of `main` of canopen-interactive/co.py.
use canopen_tools.Prelude.{
  subst, sym, ℕ, zero, suc, Bool, true, false, Option, none, some, List, [], ◌∷◌, All,
  if◌then◌else◌,
}
use canopen_tools.Interactive.Text.{Text, codes, strip}
use canopen_tools.Interactive.Session.{Inputs, Answer, blocked, done, escaped, ask}
use canopen_tools.Interactive.Menu.{Menu, reading, ◌>>=◌}
use canopen_tools.Interactive.Menu.Rules.{continue-ends, attempt-state}
use canopen_tools.Interactive.Menu.Closed.{IsClosed}
use canopen_tools.Interactive.Menu.Main.{
  same_text, is_interrupt, Actions, options, dispatch, leave, turn, next_turn, run_loop,
  on_interrupt,
}

-- An action keeps a property of the state.
abbrev pub Keeps : {T A : Type 0} → (T → Type 0) → Menu T A → Type 0
Keeps {T} P m = (t : T) (is : Inputs) → P t → P (m t is).1

pub bind-Keeps :
    {T A B : Type 0} (P : T → Type 0) (m : Menu T A) (f : A → Menu T B)
    → Keeps P m
    → ((a : A) → Keeps P (f a))
    → Keeps P (m >>= f)
unfolding ◌>>=◌
bind-Keeps P m f h g t is p =
    continue-ends P f (m t is).0 (m t is).1 (h t is p) (λ a js e. g a (m t is).1 js (h t is p))

pub Keeps-IsClosed : {T : Type 0} (P : T → Type 0) → IsClosed {T = T} (λ A m. Keeps P m)
Keeps-IsClosed P = record {
  pures = λ a t is p. p;
  lifts = λ r t is p. p;
  states = λ f t is p. p;
  asks = λ t is p. p;
  prompts = λ n accept t is p. p;
  chooses = λ xs t is p. p;
  numbers = λ n t is p. p;
  attempts = λ m h t is p. subst P (sym (attempt-state m t is)) (h t is p);
  binds = bind-Keeps P;
}

module _ {T : Type 0} (P : T → Type 0) where
  if-Keeps :
      {A : Type 0} (b : Bool) (m k : Menu T A)
      → Keeps P m
      → Keeps P k
      → Keeps P (if b then m else k)
  if-Keeps true m k h g = h
  if-Keeps false m k h g = g

  dispatch-Keeps :
      (op : Text) (opts : List (Text × Menu T (Unit {0}))) (last : Menu T Bool)
      → All (λ p. Keeps P p.1) opts
      → Keeps P last
      → Keeps P (dispatch op opts last)
  unfolding dispatch
  dispatch-Keeps op [] last all h = h
  dispatch-Keeps op ((name, act) ∷ opts) last (g, all) h =
      if-Keeps (same_text op name) _ _ (bind-Keeps P act _ g (λ u t is p. p))
        (dispatch-Keeps op opts last all h)

  module _ (disconnects : Menu T (Unit {0})) (d : Keeps P disconnects) where
    leave-Keeps : (op : Text) → Keeps P (leave op disconnects)
    unfolding leave
    leave-Keeps op =
        if-Keeps (same_text op (codes "14")) _ _ (bind-Keeps P disconnects _ d (λ u t is p. p))
          (λ t is p. p)

    turn-Keeps :
        (acts : Actions T) → All (λ p. Keeps P p.1) (options acts) → Keeps P (turn acts disconnects)
    unfolding turn
    turn-Keeps acts all =
        bind-Keeps P (reading ask) _ (λ t is p. p)
          (λ s. dispatch-Keeps (strip s) (options acts) _ all (leave-Keeps (strip s)))

    -- Of a loop that is not cut off, the state has the property.
    unfoldable pub OptionKeeps : Option (Answer (Unit {0}) × T) → Type 0
    OptionKeeps none = Unit
    OptionKeeps (some out) = P out.1

    pub run_loop-keeps :
        (fuel : ℕ) (acts : Actions T) (t : T) (is : Inputs)
        → All (λ p. Keeps P p.1) (options acts)
        → P t
        → OptionKeeps (run_loop fuel acts disconnects t is)
    unfolding run_loop OptionKeeps
    run_loop-keeps zero acts t is all p = tt
    run_loop-keeps (suc fuel) acts t is all p =
        go (turn acts disconnects t is) (turn-Keeps acts all t is p)
          (λ u js q. run_loop-keeps fuel acts u js all q)
      where
        go :
            (m : Answer Bool × T)
            → P m.1
            → ((u : T) (js : Inputs) → P u → OptionKeeps (run_loop fuel acts disconnects u js))
            → OptionKeeps (next_turn (run_loop fuel acts disconnects) m)
        go (blocked, u) q more = q
        go (done true js, u) q more = q
        go (done false js, u) q more = more u js q
        go (escaped e js, u) q more = q

    pub on_interrupt-keeps : (m : Answer (Unit {0}) × T) → P m.1 → P (on_interrupt disconnects m).1
    unfolding on_interrupt
    on_interrupt-keeps (blocked, t) p = p
    on_interrupt-keeps (done u is, t) p = p
    on_interrupt-keeps (escaped e is, t) p = go (is_interrupt e)
      where
        go : (b : Bool) → P (if b then disconnects t is else (escaped e is, t)).1
        go true = d t is p
        go false = p
