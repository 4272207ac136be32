-- ===== src/Interactive/Text.antt =====
-- What canopen-interactive/co.py uses of Python's texts and integers: `strip`, `split`, `int` and
-- `str`. A text is the list of its code points.
use Prim.Native.Char.{code}
use Prim.Native.String.{String}
use canopen_tools.Prelude.{
  ℕ, zero, suc, ◌+◌, ◌-◌, ◌*◌, ◌/◌, ◌%◌, Bool, true, false, not, ◌&&◌, ◌||◌, Option, none, some,
  List, [], ◌∷◌, ◌++◌, map, ltb, leb, ◌==◌, if◌then◌else◌,
}
use canopen_tools.Outcome.{Result, ok, raise, value_error, ◌>>=◌}
pub mod Decimal
pub mod Raises
pub mod Values

abbrev pub Text : Type 0
Text = List ℕ

-- The code points of a literal.
abbrev pub codes : String → Text
codes String.[] = []
codes (String.◌∷◌ c s) = code c ∷ codes s

-- `str.isspace` of one character.
unfoldable pub is_space : ℕ → Bool
is_space c =
    leb 9 c && leb c 13
    || leb 28 c && leb c 32
    || c == 133
    || c == 160
    || c == 5760
    || leb 8192 c && leb c 8202
    || c == 8232
    || c == 8233
    || c == 8239
    || c == 8287
    || c == 12288

-- `s.lstrip()`
unfoldable pub lstrip : Text → Text
lstrip [] = []
lstrip (c ∷ s) = if is_space c then lstrip s else c ∷ s

-- A character is dropped only where nothing is left behind it.
unfoldable pub rstrip_cons : ℕ → Text → Text
rstrip_cons c [] = if is_space c then [] else c ∷ []
rstrip_cons c (d ∷ s) = c ∷ d ∷ s

-- `s.rstrip()`
unfoldable pub rstrip : Text → Text
unfolding rstrip_cons
rstrip [] = []
rstrip (c ∷ s) = rstrip_cons c (rstrip s)

-- `s.strip()`
unfoldable pub strip : Text → Text
unfolding lstrip rstrip
strip s = rstrip (lstrip s)

-- The first piece of a text, and the others.
unfoldable pub cut : ℕ → Text → Text × List Text
cut sep [] = ([], [])
cut sep (c ∷ s) = let (p, ps) = cut sep s in if c == sep then ([], p ∷ ps) else (c ∷ p, ps)

-- `s.split(sep)` for a separator of one character.
unfoldable pub split_on : ℕ → Text → List Text
unfolding cut
split_on sep s = (cut sep s).0 ∷ (cut sep s).1

unfoldable pub keep_word : Text → List Text → List Text
keep_word [] ps = ps
keep_word (c ∷ p) ps = (c ∷ p) ∷ ps

-- The word that a text begins with, empty before a space, and the words behind it.
unfoldable pub word_cut : Text → Text × List Text
unfolding keep_word
word_cut [] = ([], [])
word_cut (c ∷ s) =
    let (p, ps) = word_cut s in if is_space c then ([], keep_word p ps) else (c ∷ p, ps)

-- `s.split()`
unfoldable pub split_words : Text → List Text
unfolding word_cut
split_words s = keep_word (word_cut s).0 (word_cut s).1

-- Integers; `negsuc n` is -(n + 1).
pub data ℤ : Type 0 where
  pos : ℕ → ℤ
  negsuc : ℕ → ℤ

unfoldable pub negate : ℕ → ℤ
negate zero = pos zero
negate (suc n) = negsuc n

-- The value of a digit; of the decimal digits, `int` is modelled on those of ASCII.
unfoldable pub digit : ℕ → Option ℕ
digit c = if ltb c b'0' || ltb b'9' c then none else some (c - b'0')

-- The digits behind the first one: an underscore may stand between two digits.
unfoldable pub digits : Text → ℕ → Result ℕ
digits [] n = ok n
digits (c ∷ []) n = elim (digit c) [ none ↦ raise value_error | some d ↦ ok (n * 10 + d) ]
digits (c ∷ e ∷ s) n =
    let underscored = digits (e ∷ s) n in
    elim (digit c) [
      | some d ↦ digits (e ∷ s) (n * 10 + d)
      | none ↦ elim (digit e) [
        | none ↦ raise value_error
        | some f ↦ if c == b'_' then underscored else raise value_error
      ]
    ]

unfoldable pub unsigned : Text → Result ℕ
unfolding digits
unsigned [] = raise value_error
unsigned (c ∷ s) = elim (digit c) [ none ↦ raise value_error | some d ↦ digits s d ]

unfoldable pub signed : Text → Result ℤ
unfolding unsigned negate
signed [] = raise value_error
signed (c ∷ s) =
    if c == b'-'
    then (unsigned s >>= λ n. ok (negate n))
    else if c == b'+'
    then (unsigned s >>= λ n. ok (pos n))
    else (unsigned (c ∷ s) >>= λ n. ok (pos n))

-- `int(s)`
unfoldable pub int : Text → Result ℤ
unfolding strip signed
int s = signed (strip s)
