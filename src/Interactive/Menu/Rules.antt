-- ===== src/Interactive/Menu/Rules.antt =====
-- What holds of the state behind an action of the menu of canopen-interactive/co.py.
use canopen_tools.Prelude.{◌≡◌, refl, Bool, true, false, Option, none, if◌then◌else◌}
use canopen_tools.Outcome.{Exn, Result, ok, raise, is_exception}
use canopen_tools.Interactive.Session.{Inputs, Answer, blocked, done, escaped}
use canopen_tools.Interactive.Menu.{Menu, pure, of_result, after_try, attempt, continue}

-- What holds before a next part of an action, and behind it whatever it is given, holds at the end.
pub continue-ends :
    {T A B : Type 0} (Q : T → Type 0) (f : A → Menu T B) (a : Answer A) (t : T)
    → Q t
    → ((x : A) (is : Inputs) → a ≡ done x is → Q (f x t is).1)
    → Q (continue f a t).1
continue-ends Q f blocked t q h = q
continue-ends Q f (done x is) t q h = h x is refl
continue-ends Q f (escaped e is) t q h = q

pub of_result-done :
    {A : Type 0} (r : Result A) (is js : Inputs) (a : A) → of_result r is ≡ done a js → r ≡ ok a
of_result-done (ok b) is js a e = cc e
of_result-done (raise x) is js a e = absurd (cc e)

-- `try` with nothing behind it leaves the state as the block does.
pub tried-state :
    {T A : Type 0} (m : Menu T A) (t : T) (is : Inputs)
    → (continue (λ o. pure tt) (attempt m t is).0 (attempt m t is).1).1 ≡ (m t is).1
unfolding attempt
tried-state {T = T} {A = A} m t is = go (m t is).0
  where
    caught :
        (b : Bool) (e : Exn) (js : Inputs)
        → (continue {T = T} {A = Option A}
            (λ o. pure tt)
            (if b then done none js else escaped e js)
            (m t is).1).1
          ≡ (m t is).1
    caught true e js = refl
    caught false e js = refl

    go :
        (a : Answer A)
        → (continue (λ o. pure tt) (after_try a (m t is).1).0 (after_try a (m t is).1).1).1
          ≡ (m t is).1
    go blocked = refl
    go (done a js) = refl
    go (escaped e js) = caught (is_exception e) e js

pub attempt-state :
    {T A : Type 0} (m : Menu T A) (t : T) (is : Inputs) → (attempt m t is).1 ≡ (m t is).1
unfolding attempt
attempt-state {T = T} {A = A} m t is = go (m t is).0
  where
    go : (a : Answer A) → (after_try a (m t is).1).1 ≡ (m t is).1
    go blocked = refl
    go (done a js) = refl
    go (escaped e js) = refl
