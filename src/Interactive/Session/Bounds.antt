-- ===== src/Interactive/Session/Bounds.antt =====
-- The numbers that the menus of canopen-interactive/co.py go on with.
use canopen_tools.Prelude.{
  ℕ, suc, ◌≤◌, ◌≡◌, subst, inl, inr, Bool, true, false, ◌&&◌, Option, none, some, List, [], ◌∷◌,
  leb, if◌then◌else◌, get_elem?, Bool-cases, arith,
}
use canopen_tools.Outcome.{Result, ok, raise, is_exception, ◌>>=◌}
use canopen_tools.Interactive.Text.{Text, ℤ, pos, negsuc, int}
use canopen_tools.Interactive.Text.Decimal.{str, int-str}
use canopen_tools.Interactive.Session.{
  Inputs, Answer, done, in_range, passed, turn, after, prompt, choose, choose_number,
}
use canopen_tools.Interactive.Session.Chosen.{
  Chosen, waits, rejects, picks, breaks, choose-number, choose-Chosen,
}

-- A loop's outcome, if it is a number, is one from 1 to `n`.
Within : ℕ → Result (Option ℕ) → Type 0
Within n (ok (some c)) = (1 ≤ c) × (c ≤ n)
Within n _ = Unit

passed-Within : (n : ℕ) (o : Result (Option ℕ)) → Within n o → Within n (passed o)
unfolding passed Within
passed-Within n (ok (some c)) h = h
passed-Within n (ok none) h = tt
passed-Within n (raise e) h = go (is_exception e)
  where
    go : (b : Bool) → Within n (if b then ok none else raise e)
    go true = tt
    go false = tt

in_range-Within : (n : ℕ) (z : ℤ) → Within n (in_range n (λ c. ok c) z)
unfolding in_range Within
in_range-Within n (negsuc c) = tt
in_range-Within n (pos c) = elim (Bool-cases (leb 1 c && leb c n)) [
  | inl h ↦ rw (h, Within) (ground arith, ground arith)
  | inr h ↦ rw (h, Within) tt
]

turn-Within : (n : ℕ) (r : Result Text) → Within n (turn n (λ c. ok c) r)
unfolding turn Within
turn-Within n r = passed-Within n _ (read r)
  where
    number : (m : Result ℤ) → Within n (m >>= in_range n (λ c. ok c))
    number (ok z) = in_range-Within n z
    number (raise e) = tt

    read : (r : Result Text) → Within n (r >>= λ s. int s >>= in_range n (λ c. ok c))
    read (ok s) = number (int s)
    read (raise e) = tt

-- Whatever is typed, a menu of `n` entries goes on with a number from 1 to `n`.
pub choose_number-bounds :
    (n : ℕ) (is rest : Inputs) (c : ℕ) → choose_number n is ≡ done c rest → (1 ≤ c) × (c ≤ n)
unfolding choose_number prompt Within
choose_number-bounds n [] rest c e = absurd (cc e)
choose_number-bounds n (r ∷ is) rest c e =
    go (turn n (λ c. ok c) r) (turn-Within n r) (choose_number-bounds n is rest c) e
  where
    go :
        (o : Result (Option ℕ))
        → Within n o
        → (choose_number n is ≡ done c rest → (1 ≤ c) × (c ≤ n))
        → after o is (choose_number n is) ≡ done c rest
        → (1 ≤ c) × (c ≤ n)
    go (raise x) h again f = absurd (cc f)
    go (ok none) h again f = again f
    go (ok (some d)) h again f = subst (λ j. (1 ≤ j) × (j ≤ n)) (cc f) h

-- The number that a menu prints before an entry picks that entry.
pub choose-str :
    {A : Type 0} (xs : List A) (i : ℕ) (a : A) (is : Inputs)
    → get_elem? xs i ≡ some a
    → choose xs (ok (str (suc i)) ∷ is) ≡ done a is
choose-str xs i a is e = choose-number xs (str (suc i)) is i a (int-str (suc i)) e

-- What a menu returns is one of its entries.
pub choose-entry :
    {A : Type 0} (xs : List A) (is rest : Inputs) (a : A)
    → choose xs is ≡ done a rest
    → (i : ℕ) × (get_elem? xs i ≡ some a)
choose-entry xs is rest a e = go is _ (choose-Chosen xs is) e
  where
    go :
        (js : Inputs) (out : Answer _)
        → Chosen xs js out
        → out ≡ done a rest
        → (i : ℕ) × (get_elem? xs i ≡ some a)
    go _ _ waits f = absurd (cc f)
    go _ _ (rejects r js out h c) f = go js out c f
    go _ _ (picks s js i b n g) f = (i, subst (λ c. get_elem? xs i ≡ some c) (cc f) g)
    go _ _ (breaks x js h) f = absurd (cc f)
