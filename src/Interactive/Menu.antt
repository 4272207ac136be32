-- ===== src/Interactive/Menu.antt =====
-- What the actions of the menu of canopen-interactive/co.py share: the dictionaries of nodes, the
-- calls of python-canopen, and `try`. An action reads inputs and changes the tool's state, which is
-- kept when it waits or ends with an exception.
use canopen_tools.Prelude.{
  ℕ, Bool, true, false, ◌&&◌, ◌==◌, Option, none, some, List, [], ◌∷◌, ◌++◌, if◌then◌else◌,
}
use canopen_tools.Outcome.{Exn, Result, ok, raise, key_error, is_exception}
use canopen_tools.Interactive.Text.{Text, ℤ, pos, negsuc}
use canopen_tools.Interactive.Dict.{get}
use canopen_tools.Interactive.Session.{Inputs, Answer, blocked, done, escaped}
use canopen_tools.Interactive.Monitor.{Callbacks, Feed}
pub mod Library
pub mod Nodes
pub mod Rules
pub mod Closed
pub mod Pdo
pub mod Objects
pub mod Sdo
pub mod Subscribe
pub mod Show
pub mod Flash
pub mod Start
pub mod Options
pub mod Kept
pub mod Main

abbrev pub same_int : ℤ → ℤ → Bool
same_int (pos m) (pos n) = m == n
same_int (negsuc m) (negsuc n) = m == n
same_int _ _ = false

abbrev pub Menu : Type 0 → Type 0 → Type 0
Menu T A = T → Inputs → Answer A × T

abbrev pub of_result : {A : Type 0} → Result A → Inputs → Answer A
of_result (ok a) is = done a is
of_result (raise e) is = escaped e is

module _ {T A : Type 0} where
  abbrev pub pure : A → Menu T A
  pure a t is = (done a is, t)

  -- A loop over the inputs alone.
  abbrev pub reading : (Inputs → Answer A) → Menu T A
  reading m t is = (m is, t)

  abbrev pub lift : Result A → Menu T A
  lift r t is = (of_result r is, t)

  -- An operation on the state.
  abbrev pub acting : (T → Result A × T) → Menu T A
  acting f t is = (of_result (f t).0 is, (f t).1)

  abbrev pub reads : (T → A) → Menu T A
  reads f t is = (done (f t) is, t)

  abbrev pub after_try : Answer A → T → Answer (Option A) × T
  after_try blocked t = (blocked, t)
  after_try (done a is) t = (done (some a) is, t)
  after_try (escaped e is) t = (if is_exception e then done none is else escaped e is, t)

  -- `try: m`, `except Exception as e: print(...)`
  unfoldable pub attempt : Menu T A → Menu T (Option A)
  attempt m t is = after_try (m t is).0 (m t is).1

module _ {T A B : Type 0} where
  abbrev pub continue : (A → Menu T B) → Answer A → T → Answer B × T
  continue f blocked t = (blocked, t)
  continue f (done a is) t = f a t is
  continue f (escaped e is) t = (escaped e is, t)

  infixl 5 ◌>>=◌ ◌>>◌
  unfoldable pub ◌>>=◌ : Menu T A → (A → Menu T B) → Menu T B
  ◌>>=◌ m f t is = continue f (m t is).0 (m t is).1

  abbrev pub ◌>>◌ : Menu T A → Menu T B → Menu T B
  m >> k = m >>= λ _. k
