-- ===== src/Interactive/Menu/Closed.antt =====
-- Properties of the actions of canopen-interactive/co.py that an action has if its parts have them.
use canopen_tools.Prelude.{ℕ, List}
use canopen_tools.Outcome.{Result}
use canopen_tools.Interactive.Session.{ask, prompt, choose, choose_number}
use canopen_tools.Interactive.Menu.{Menu, pure, reading, lift, reads, attempt, ◌>>=◌}

pub record IsClosed {T : Type 0} (C : (A : Type 0) → Menu T A → Type 0) : Type 1 where
  pub pures : {A : Type 0} (a : A) → C A (pure a)
  pub lifts : {A : Type 0} (r : Result A) → C A (lift r)
  pub states : {A : Type 0} (f : T → A) → C A (reads f)
  pub asks : C _ (reading ask)
  pub prompts : {A : Type 0} (n : ℕ) (accept : ℕ → Result A) → C A (reading (prompt n accept))
  pub chooses : {A : Type 0} (xs : List A) → C A (reading (choose xs))
  pub numbers : (n : ℕ) → C _ (reading (choose_number n))
  pub attempts : {A : Type 0} (m : Menu T A) → C A m → C _ (attempt m)
  pub binds :
      {A B : Type 0} (m : Menu T A) (f : A → Menu T B)
      → C A m
      → ((a : A) → C B (f a))
      → C B (m >>= f)
