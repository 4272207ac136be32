-- ===== src/Interactive/Text/Raises.antt =====
-- The exceptions of `int`.
use canopen_tools.Prelude.{
  ℕ, ◌+◌, ◌*◌, ◌==◌, ◌≡◌, ◌⊎◌, refl, inl, inr, Bool, true, false, Option, none, some, [], ◌∷◌,
  if◌then◌else◌,
}
use canopen_tools.Outcome.{IsCaught, Exn, Result, ok, raise, value_error, is_exception, ◌>>=◌}
use canopen_tools.Interactive.Text.{
  Text, strip, ℤ, pos, negate, digit, digits, unsigned, signed, int,
}

digits-IsCaught : (s : Text) (n : ℕ) → IsCaught (digits s n)
unfolding digits IsCaught
digits-IsCaught [] n = tt
digits-IsCaught (c ∷ []) n = last (digit c)
  where
    last :
        (o : Option ℕ) → IsCaught (elim o [ none ↦ raise value_error | some d ↦ ok (n * 10 + d) ])
    last none = refl
    last (some d) = tt
digits-IsCaught (c ∷ e ∷ s) n = first (digits-IsCaught (e ∷ s)) (digit c) (digit e) (c == b'_')
  where
    first :
        ((m : ℕ) → IsCaught (digits (e ∷ s) m))
        → (o p : Option ℕ) (b : Bool)
        → IsCaught (elim o [
          | some d ↦ digits (e ∷ s) (n * 10 + d)
          | none ↦ elim p [
            | none ↦ raise value_error
            | some f ↦ if b then digits (e ∷ s) n else raise value_error
          ]
        ])
    first rest (some d) p b = rest (n * 10 + d)
    first rest none none b = refl
    first rest none (some f) true = rest n
    first rest none (some f) false = refl

unsigned-IsCaught : (s : Text) → IsCaught (unsigned s)
unfolding unsigned IsCaught
unsigned-IsCaught [] = refl
unsigned-IsCaught (c ∷ s) = first (digit c)
  where
    first : (o : Option ℕ) → IsCaught (elim o [ none ↦ raise value_error | some d ↦ digits s d ])
    first none = refl
    first (some d) = digits-IsCaught s d

mapped-IsCaught :
    {A B : Type 0} (r : Result A) (f : A → B) → IsCaught r → IsCaught (r >>= λ a. ok (f a))
unfolding IsCaught
mapped-IsCaught (ok a) f h = tt
mapped-IsCaught (raise e) f h = h

if-IsCaught :
    {A : Type 0} (b : Bool) (x y : Result A)
    → IsCaught x
    → IsCaught y
    → IsCaught (if b then x else y)
if-IsCaught true x y h g = h
if-IsCaught false x y h g = g

signed-IsCaught : (s : Text) → IsCaught (signed s)
unfolding signed IsCaught
signed-IsCaught [] = refl
signed-IsCaught (c ∷ s) =
    if-IsCaught (c == b'-') _ _ (mapped-IsCaught (unsigned s) negate (unsigned-IsCaught s)) (
      if-IsCaught (c == b'+') _ _ (mapped-IsCaught (unsigned s) pos (unsigned-IsCaught s))
        (mapped-IsCaught (unsigned (c ∷ s)) pos (unsigned-IsCaught (c ∷ s))))

-- `int` raises nothing that `except Exception` lets through.
int-IsCaught : (s : Text) → IsCaught (int s)
unfolding int
int-IsCaught s = signed-IsCaught (strip s)

pub int-cases :
    (s : Text)
    → ((e : Exn) × (int s ≡ raise e) × (is_exception e ≡ true)) ⊎ ((z : ℤ) × (int s ≡ ok z))
unfolding IsCaught
int-cases s = go (int s) (int-IsCaught s) refl
  where
    go :
        (r : Result ℤ)
        → IsCaught r
        → int s ≡ r
        → ((e : Exn) × (int s ≡ raise e) × (is_exception e ≡ true)) ⊎ ((z : ℤ) × (int s ≡ ok z))
    go (ok z) h e = inr (z, e)
    go (raise x) h e = inl (x, e, h)
