-- ===== src/Interactive/Session.antt =====
-- The prompts of canopen-interactive/co.py: what `input` returns or raises, call by call, and the
-- loops that ask for a number until one fits.
use canopen_tools.Prelude.{
  ℕ, ◌+◌, ◌-◌, Bool, true, false, ◌&&◌, Option, none, some, List, [], ◌∷◌, leb, if◌then◌else◌,
  length, get_elem?,
}
use canopen_tools.Outcome.{Exn, Result, ok, raise, other, is_exception, ◌>>=◌}
use canopen_tools.Interactive.Text.{Text, ℤ, pos, negsuc, int}
pub mod Chosen
pub mod Bounds

abbrev pub Inputs : Type 0
Inputs = List (Result Text)

-- A call that reads inputs waits for one that has not come, returns, or ends with an exception.
pub data Answer {ℓ} (A : Type ℓ) : Type ℓ where
  blocked : Answer A
  done : A → Inputs → Answer A
  escaped : Exn → Inputs → Answer A

abbrev pub bind {ℓ κ} : {A : Type ℓ} {B : Type κ} → Answer A → (A → Inputs → Answer B) → Answer B
bind blocked f = blocked
bind (done a is) f = f a is
bind (escaped e is) f = escaped e is

-- `input(...)`
unfoldable pub ask : Inputs → Answer Text
ask [] = blocked
ask (ok s ∷ is) = done s is
ask (raise e ∷ is) = escaped e is

-- `entries[i]`
unfoldable pub index {ℓ} : {A : Type ℓ} → List A → ℕ → Result A
index xs i = elim (get_elem? xs i) [ none ↦ raise other | some a ↦ ok a ]

-- `if 1 <= choice <= n`, with what follows under it; without it, the loop goes on.
unfoldable pub in_range {ℓ} : {A : Type ℓ} → ℕ → (ℕ → Result A) → ℤ → Result (Option A)
in_range n accept (pos c) = if leb 1 c && leb c n then (accept c >>= λ a. ok (some a)) else ok none
in_range n accept (negsuc c) = ok none

-- `except Exception: pass`, and the loop goes on.
unfoldable pub passed {ℓ} : {A : Type ℓ} → Result (Option A) → Result (Option A)
passed (ok o) = ok o
passed (raise e) = if is_exception e then ok none else raise e

-- One turn of the loop on what `input` gives.
unfoldable pub turn {ℓ} : {A : Type ℓ} → ℕ → (ℕ → Result A) → Result Text → Result (Option A)
unfolding in_range passed
turn n accept r = passed (r >>= λ s. int s >>= in_range n accept)

-- The loop returns, goes on to its next turn, or ends with an exception.
abbrev pub after {ℓ} : {A : Type ℓ} → Result (Option A) → Inputs → Answer A → Answer A
after (raise e) is again = escaped e is
after (ok none) is again = again
after (ok (some a)) is again = done a is

-- The loop that asks for a number from 1 to `n`.
unfoldable pub prompt {ℓ} : {A : Type ℓ} → ℕ → (ℕ → Result A) → Inputs → Answer A
unfolding turn
prompt n accept [] = blocked
prompt n accept (r ∷ is) = after (turn n accept r) is (prompt n accept is)

-- The loop of the menus that return an entry.
unfoldable pub choose {ℓ} : {A : Type ℓ} → List A → Inputs → Answer A
unfolding prompt index
choose xs is = prompt (length xs) (λ c. index xs (c - 1)) is

-- The loop of the menus that go on with the number.
unfoldable pub choose_number : ℕ → Inputs → Answer ℕ
unfolding prompt
choose_number n is = prompt n (λ c. ok c) is
