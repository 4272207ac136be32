-- ===== src/Interactive/Text/Decimal.antt =====
-- The print of a number, which the menus of canopen-interactive/co.py write before each entry, and
-- its reading by `int`.
use canopen_tools.Prelude.{
  ℕ, zero, suc, ◌+◌, ◌-◌, ◌*◌, ◌/◌, ◌%◌, ◌≤◌, ◌≡◌, refl, ap, ◌∙◌, inl, inr, false, some, [], ◌∷◌,
  All, All-map, ltb, ◌==◌, if◌then◌else◌, Bool-cases, arith,
}
use canopen_tools.Outcome.{ok}
use canopen_tools.Interactive.Text.{
  Text, is_space, rstrip_cons, rstrip, strip, pos, digit, digits, unsigned, signed, int,
}

decimal : ℕ → ℕ → Text → Text
decimal zero n out = (b'0' + n) ∷ out
decimal (suc fuel) n out =
    let more = decimal fuel (n / 10) ((b'0' + n % 10) ∷ out) in
    if ltb n 10 then (b'0' + n) ∷ out else more

-- `str(n)`; a number has no more digits than its value.
unfoldable pub str : ℕ → Text
unfolding decimal
str n = decimal n n []

abbrev pub IsDigit : ℕ → Type 0
IsDigit c = (b'0' ≤ c) × (c ≤ b'9')

-- The number that digits spell behind `n`.
value : ℕ → Text → ℕ
value n [] = n
value n (c ∷ s) = value (n * 10 + (c - b'0')) s

value-decimal : (fuel n : ℕ) (out : Text) → n ≤ fuel → value 0 (decimal fuel n out) ≡ value n out
unfolding value decimal
value-decimal zero n out h = ap (λ t. value t out) (omega arith)
value-decimal (suc fuel) n out h = elim (Bool-cases (ltb n 10)) [
  | inl small ↦ rw small (ap (λ t. value t out) (omega arith))
  | inr large ↦ rw large (
      value-decimal fuel (n / 10) ((b'0' + n % 10) ∷ out) (ground arith)
      ∙ ap (λ t. value t out) (omega arith))
]

decimal-IsDigit :
    (fuel n : ℕ) (out : Text) → n ≤ fuel → All IsDigit out → All IsDigit (decimal fuel n out)
unfolding decimal
decimal-IsDigit zero n out h all = (omega arith, all)
decimal-IsDigit (suc fuel) n out h all = elim (Bool-cases (ltb n 10)) [
  | inl small ↦ rw small (ground arith, all)
  | inr large ↦
      rw large
        (decimal-IsDigit fuel (n / 10) ((b'0' + n % 10) ∷ out) (ground arith) (omega arith, all))
]

digit_lem : (c : ℕ) → IsDigit c → digit c ≡ some (c - b'0')
unfolding digit
digit_lem c h = ground arith

digits-value : (s : Text) (n : ℕ) → All IsDigit s → digits s n ≡ ok (value n s)
unfolding digits value
digits-value [] n all = refl
digits-value (c ∷ []) n (h, all) = rw (digit_lem c h, digits) refl
digits-value (c ∷ e ∷ s) n (h, all) =
    rw (digit_lem c h, digits) (digits-value (e ∷ s) (n * 10 + (c - b'0')) all)

decimal-cons : (fuel n : ℕ) (out : Text) → (c : ℕ) × (s : Text) × (decimal fuel n out ≡ c ∷ s)
unfolding decimal
decimal-cons zero n out = (b'0' + n, out, refl)
decimal-cons (suc fuel) n out = elim (Bool-cases (ltb n 10)) [
  | inl small ↦ rw small (b'0' + n, out, refl)
  | inr large ↦ rw large (decimal-cons fuel (n / 10) ((b'0' + n % 10) ∷ out))
]

-- A text of digits is read as the number that it spells.
signed-value :
    (s : Text) → All IsDigit s → (c : ℕ) (t : Text) → s ≡ c ∷ t → signed s ≡ ok (pos (value 0 s))
unfolding signed unsigned value
signed-value [] all c t e = cc e
signed-value (d ∷ s) (h, all) c t e =
    rw (minus, plus, digit_lem d h, digits-value s (d - b'0') all, unsigned)
      (ap (λ v. ok (pos (value v s))) (omega arith))
  where
    minus : (d == b'-') ≡ false
    minus = ground arith

    plus : (d == b'+') ≡ false
    plus = ground arith

pub IsDigit-not_space : (c : ℕ) → IsDigit c → is_space c ≡ false
unfolding is_space
IsDigit-not_space c h = ground arith

abbrev pub NotSpace : ℕ → Type 0
NotSpace c = is_space c ≡ false

rstrip-NotSpace : (s : Text) → All NotSpace s → rstrip s ≡ s
unfolding rstrip
rstrip-NotSpace [] all = refl
rstrip-NotSpace (c ∷ s) (h, all) = rw (rstrip-NotSpace s all) (back s)
  where
    back : (t : Text) → rstrip_cons c t ≡ c ∷ t
    back [] = rw h refl
    back (d ∷ t) = refl

-- A text without spaces is its own strip.
pub strip-NotSpace : (s : Text) → All NotSpace s → strip s ≡ s
unfolding strip
strip-NotSpace [] all = refl
strip-NotSpace (c ∷ s) (h, all) = rw h (rstrip-NotSpace (c ∷ s) (h, all))

str-IsDigit : (n : ℕ) → All IsDigit (str n)
unfolding str
str-IsDigit n = decimal-IsDigit n n [] (omega arith) tt

pub str-NotSpace : (n : ℕ) → All NotSpace (str n)
str-NotSpace n = All-map IsDigit NotSpace (str n) IsDigit-not_space (str-IsDigit n)

-- `int` reads back what `str` prints.
pub int-str : (n : ℕ) → int (str n) ≡ ok (pos n)
unfolding int str value
int-str n =
    let (c, t, e) = decimal-cons n n [] in
    ap signed (strip-NotSpace (decimal n n []) (str-NotSpace n))
    ∙ signed-value (decimal n n []) (str-IsDigit n) c t e
    ∙ ap (λ v. ok (pos v)) (value-decimal n n [] (omega arith))
