-- ===== src/Interactive/Session/Chosen.antt =====
-- What the menus of canopen-interactive/co.py return.
use canopen_tools.Prelude.{
  ℕ, zero, suc, ◌-◌, ◌≤◌, ◌<◌, ◌≡◌, refl, sym, ap, subst, ◌∙◌, inl, inr, true, false, Option, none,
  some, List, [], ◌∷◌, leb, if◌then◌else◌, length, get_elem?, ◌&&◌, Bool-cases, Option-cases, arith,
}
use canopen_tools.Outcome.{Exn, Result, ok, raise, other, is_exception}
use canopen_tools.Interactive.Text.{Text, ℤ, pos, negsuc, int}
use canopen_tools.Interactive.Text.Raises.{int-cases}
use canopen_tools.Interactive.Session.{
  Inputs, Answer, blocked, done, escaped, index, in_range, passed, turn, after, prompt, choose,
}

-- The number of no entry.
pub data Outside (n : ℕ) : ℤ → Type 0 where
  negative : (c : ℕ) → Outside n (negsuc c)
  null : Outside n (pos 0)
  large : (c : ℕ) → n < c → Outside n (pos c)

-- What a menu of `n` entries passes over.
pub data Rejected (n : ℕ) : Result Text → Type 0 where
  no_input : (e : Exn) → is_exception e ≡ true → Rejected n (raise e)
  no_number : (s : Text) (e : Exn) → int s ≡ raise e → is_exception e ≡ true → Rejected n (ok s)
  no_entry : (s : Text) (z : ℤ) → int s ≡ ok z → Outside n z → Rejected n (ok s)

-- The answers of a menu, described by its inputs.
pub data Chosen {A : Type 0} (xs : List A) : Inputs → Answer A → Type 0 where
  waits : Chosen xs [] blocked
  rejects :
      (r : Result Text) (is : Inputs) (out : Answer A)
      → Rejected (length xs) r
      → Chosen xs is out
      → Chosen xs (r ∷ is) out
  picks :
      (s : Text) (is : Inputs) (i : ℕ) (a : A)
      → int s ≡ ok (pos (suc i))
      → get_elem? xs i ≡ some a
      → Chosen xs (ok s ∷ is) (done a is)
  breaks :
      (e : Exn) (is : Inputs) → is_exception e ≡ false → Chosen xs (raise e ∷ is) (escaped e is)

lt-get_elem? : {A : Type 0} (xs : List A) (i : ℕ) (a : A) → get_elem? xs i ≡ some a → i < length xs
lt-get_elem? [] i a e = absurd (cc e)
lt-get_elem? (x ∷ xs) zero a e = omega arith
lt-get_elem? (x ∷ xs) (suc i) a e = omega (arith, lt-get_elem? xs i a e)

get_elem?-none : {A : Type 0} (xs : List A) (i : ℕ) → get_elem? xs i ≡ none → length xs < suc i
get_elem?-none [] i e = omega arith
get_elem?-none (x ∷ xs) zero e = absurd (cc e)
get_elem?-none (x ∷ xs) (suc i) e = omega (arith, get_elem?-none xs i e)

module _ {A : Type 0} (n : ℕ) (accept : ℕ → Result A) where
  turn-number :
      (s : Text) (z : ℤ) → int s ≡ ok z → turn n accept (ok s) ≡ passed (in_range n accept z)
  unfolding turn
  turn-number s z e = rw e refl

  turn-no_number :
      (s : Text) (e : Exn)
      → int s ≡ raise e
      → is_exception e ≡ true
      → turn n accept (ok s) ≡ ok none
  unfolding turn passed
  turn-no_number s e h g = rw (h, g) refl

  turn-raise : (e : Exn) → turn n accept (raise e) ≡ (if is_exception e then ok none else raise e)
  unfolding turn passed
  turn-raise e = refl

  passed-Outside : (z : ℤ) → Outside n z → passed (in_range n accept z) ≡ ok none
  unfolding passed in_range
  passed-Outside (negsuc c) h = refl
  passed-Outside (pos d) null = refl
  passed-Outside (pos d) (large c h) = rw outside refl
    where
      outside : (leb 1 d && leb d n) ≡ false
      outside = ground arith

  passed-inside :
      (i : ℕ) (a : A)
      → suc i ≤ n
      → accept (suc i) ≡ ok a
      → passed (in_range n accept (pos (suc i))) ≡ ok (some a)
  unfolding passed in_range
  passed-inside i a h e = rw (inside, e) refl
    where
      inside : (leb 1 (suc i) && leb (suc i) n) ≡ true
      inside = ground arith

pub index_lem :
    {A : Type 0} (xs : List A) (i : ℕ) (a : A) → get_elem? xs i ≡ some a → index xs i ≡ ok a
unfolding index
index_lem xs i a e = rw (e, index) refl

pub index-none :
    {A : Type 0} (xs : List A) (i : ℕ) → get_elem? xs i ≡ none → index xs i ≡ raise other
unfolding index
index-none xs i e = rw (e, index) refl

module _ {A : Type 0} (xs : List A) where
  choose-turn :
      (r : Result Text) (is : Inputs) (t : Result (Option A))
      → turn (length xs) (λ c. index xs (c - 1)) r ≡ t
      → choose xs (r ∷ is) ≡ after t is (choose xs is)
  unfolding choose prompt
  choose-turn r is t e = ap (λ t. after t is (choose xs is)) e

  passes :
      (r : Result Text) (is : Inputs)
      → Rejected (length xs) r
      → turn (length xs) (λ c. index xs (c - 1)) r ≡ ok none
      → Chosen xs is (choose xs is)
      → Chosen xs (r ∷ is) (choose xs (r ∷ is))
  passes r is h e rest =
      subst (λ out. Chosen xs (r ∷ is) out) (sym (choose-turn r is (ok none) e))
        (rejects r is _ h rest)

  passed_over-Chosen :
      (s : Text) (is : Inputs) (z : ℤ)
      → int s ≡ ok z
      → Outside (length xs) z
      → Chosen xs is (choose xs is)
      → Chosen xs (ok s ∷ is) (choose xs (ok s ∷ is))
  passed_over-Chosen s is z e h = passes (ok s) is (no_entry s z e h) (
      turn-number (length xs) (λ c. index xs (c - 1)) s z e
      ∙ passed-Outside (length xs) (λ c. index xs (c - 1)) z h)

  -- The number of an entry picks it, whatever is typed later.
  pub choose-number :
      (s : Text) (is : Inputs) (i : ℕ) (a : A)
      → int s ≡ ok (pos (suc i))
      → get_elem? xs i ≡ some a
      → choose xs (ok s ∷ is) ≡ done a is
  choose-number s is i a e g = choose-turn (ok s) is (ok (some a)) (
      turn-number (length xs) (λ c. index xs (c - 1)) s (pos (suc i)) e
      ∙ passed-inside (length xs) (λ c. index xs (c - 1)) i a (lt-get_elem? xs i a g)
          (ap (λ j. index xs j) (omega arith) ∙ index_lem xs i a g))

  number-Chosen :
      (s : Text) (is : Inputs) (z : ℤ)
      → int s ≡ ok z
      → Chosen xs is (choose xs is)
      → Chosen xs (ok s ∷ is) (choose xs (ok s ∷ is))
  number-Chosen s is (negsuc c) e rest = passed_over-Chosen s is (negsuc c) e (negative c) rest
  number-Chosen s is (pos zero) e rest = passed_over-Chosen s is (pos zero) e null rest
  number-Chosen s is (pos (suc i)) e rest = elim (Option-cases (get_elem? xs i)) [
    | inl g ↦ passed_over-Chosen s is (pos (suc i)) e (large (suc i) (get_elem?-none xs i g)) rest
    | inr (a, g) ↦
        subst (λ out. Chosen xs (ok s ∷ is) out) (sym (choose-number s is i a e g))
          (picks s is i a e g)
  ]

  input-Chosen :
      (r : Result Text) (is : Inputs)
      → Chosen xs is (choose xs is)
      → Chosen xs (r ∷ is) (choose xs (r ∷ is))
  input-Chosen (raise e) is rest = elim (Bool-cases (is_exception e)) [
    | inl h ↦
        passes (raise e) is (no_input e h)
          (turn-raise (length xs) (λ c. index xs (c - 1)) e ∙ rw h refl) rest
    | inr h ↦
        subst (λ out. Chosen xs (raise e ∷ is) out)
          (sym (
            choose-turn (raise e) is (raise e)
              (turn-raise (length xs) (λ c. index xs (c - 1)) e ∙ rw h refl)))
          (breaks e is h)
  ]
  input-Chosen (ok s) is rest = elim (int-cases s) [
    | inl (e, h, g) ↦
        passes (ok s) is (no_number s e h g)
          (turn-no_number (length xs) (λ c. index xs (c - 1)) s e h g) rest
    | inr (z, h) ↦ number-Chosen s is z h rest
  ]

  -- Whatever is typed, the answer is one that `Chosen` describes: the entry whose number was typed
  -- behind inputs that name no entry.
  pub choose-Chosen : (is : Inputs) → Chosen xs is (choose xs is)
  unfolding choose prompt
  choose-Chosen [] = waits
  choose-Chosen (r ∷ is) = input-Chosen r is (choose-Chosen is)
