-- ===== src/Interactive/Text/Values.antt =====
-- The lists of values that `write_sdo` and `send_pdo` of canopen-interactive/co.py read.
use canopen_tools.Prelude.{
  ℕ, ◌≡◌, ◌≢◌, refl, ◌∙◌, Bool, true, false, ◌||◌, List, [], ◌∷◌, ◌++◌, append-nil, All, ◌==◌,
  ==_iff, if◌then◌else◌, arith,
}
use canopen_tools.Interactive.Text.{
  Text, is_space, strip, cut, split_on, keep_word, word_cut, split_words,
}
use canopen_tools.Interactive.Text.Decimal.{NotSpace, strip-NotSpace}

-- `c in s` for a character.
unfoldable pub has : ℕ → Text → Bool
has c [] = false
has c (d ∷ s) = c == d || has c s

-- `[v.strip() for v in pieces if v.strip() != ""]`
unfoldable pub keep_stripped : Text → List Text → List Text
keep_stripped [] vs = vs
keep_stripped (c ∷ v) vs = (c ∷ v) ∷ vs

unfoldable pub stripped_values : List Text → List Text
unfolding keep_stripped
stripped_values [] = []
stripped_values (v ∷ vs) = keep_stripped (strip v) (stripped_values vs)

-- The values of an input line: at commas if there is one, and otherwise at spaces.
unfoldable pub values_of : Text → List Text
unfolding stripped_values
values_of s =
    if has b',' s then stripped_values (split_on b',' s) else stripped_values (split_words s)

-- A value that can be written: a character at least, no space and no comma.
pub record IsValue (v : Text) : Type 0 where
  pub not_empty : v ≢ []
  pub no_space : All NotSpace v
  pub no_comma : has b',' v ≡ false

-- The values with a separator between each two.
unfoldable pub join : ℕ → List Text → Text
join sep [] = []
join sep (v ∷ []) = v
join sep (v ∷ w ∷ vs) = v ++ (sep ∷ join sep (w ∷ vs))

keep_stripped-cons : (v : Text) (vs : List Text) → v ≢ [] → keep_stripped v vs ≡ v ∷ vs
unfolding keep_stripped
keep_stripped-cons [] vs h = absurd (h refl)
keep_stripped-cons (c ∷ v) vs h = refl

stripped_values-IsValue : (vs : List Text) → All IsValue vs → stripped_values vs ≡ vs
unfolding stripped_values
stripped_values-IsValue [] all = refl
stripped_values-IsValue (v ∷ vs) (h, all) =
    rw (strip-NotSpace v h.no_space, stripped_values-IsValue vs all)
      (keep_stripped-cons v vs h.not_empty)

keep_word-cons : (v : Text) (vs : List Text) → v ≢ [] → keep_word v vs ≡ v ∷ vs
unfolding keep_word
keep_word-cons [] vs h = absurd (h refl)
keep_word-cons (c ∷ v) vs h = refl

-- A piece without the separator is cut off whole.
cut-append :
    (sep : ℕ) (v s : Text)
    → has sep v ≡ false
    → cut sep (v ++ s) ≡ (v ++ (cut sep s).0, (cut sep s).1)
unfolding cut has
cut-append sep [] s h = refl
cut-append sep (c ∷ v) s h = ground (arith, cut-append sep v s)

word_cut-append :
    (v s : Text) → All NotSpace v → word_cut (v ++ s) ≡ (v ++ (word_cut s).0, (word_cut s).1)
unfolding word_cut
word_cut-append [] s all = refl
word_cut-append (c ∷ v) s (h, all) = rw (h, word_cut-append v s all) refl

cut_at_sep : (sep : ℕ) (s : Text) → cut sep (sep ∷ s) ≡ ([], (cut sep s).0 ∷ (cut sep s).1)
unfolding cut
cut_at_sep sep s = rw ((==_iff sep sep).1 refl) refl

cut-last : (v : Text) → has b',' v ≡ false → cut b',' v ≡ (v, [])
unfolding cut has
cut-last [] h = refl
cut-last (c ∷ v) h = ground (arith, cut-last v)

cut-join :
    (v : Text) (vs : List Text) → All IsValue (v ∷ vs) → cut b',' (join b',' (v ∷ vs)) ≡ (v, vs)
unfolding join
cut-join v [] (h, all) = cut-last v h.no_comma
cut-join v (w ∷ vs) (h, all) =
    cut-append b',' v (b',' ∷ join b',' (w ∷ vs)) h.no_comma
    ∙ rw (cut_at_sep b',' (join b',' (w ∷ vs)), cut-join w vs all, append-nil v) refl

word_cut-last : (v : Text) → All NotSpace v → word_cut v ≡ (v, [])
unfolding word_cut
word_cut-last [] all = refl
word_cut-last (c ∷ v) (h, all) = rw (h, word_cut-last v all) refl

word_cut_at_space : (s : Text) → word_cut (b' ' ∷ s) ≡ ([], split_words s)
unfolding word_cut split_words is_space
word_cut_at_space s = refl

split_words-cut :
    (s v : Text) (vs : List Text) → v ≢ [] → word_cut s ≡ (v, vs) → split_words s ≡ v ∷ vs
unfolding split_words
split_words-cut s v vs h e = rw e (keep_word-cons v vs h)

word_cut-join :
    (v : Text) (vs : List Text) → All IsValue (v ∷ vs) → word_cut (join b' ' (v ∷ vs)) ≡ (v, vs)
unfolding join
word_cut-join v [] (h, all) = word_cut-last v h.no_space
word_cut-join v (w ∷ vs) (h, (g, all)) =
    word_cut-append v (b' ' ∷ join b' ' (w ∷ vs)) h.no_space
    ∙ rw
        (
          word_cut_at_space (join b' ' (w ∷ vs)),
          split_words-cut (join b' ' (w ∷ vs)) w vs g.not_empty (word_cut-join w vs (g, all)),
          append-nil v,
        )
        refl

has-append : (c : ℕ) (s t : Text) → has c (s ++ t) ≡ (has c s || has c t)
unfolding has
has-append c [] t = refl
has-append c (d ∷ s) t = ground (arith, has-append c s t)

has_at : (c : ℕ) (s : Text) → has c (c ∷ s) ≡ true
unfolding has
has_at c s = rw ((==_iff c c).1 refl) refl

or_true : (b : Bool) → (b || true) ≡ true
or_true true = refl
or_true false = refl

has-join_comma : (v w : Text) (vs : List Text) → has b',' (join b',' (v ∷ w ∷ vs)) ≡ true
unfolding join
has-join_comma v w vs =
    has-append b',' v (b',' ∷ join b',' (w ∷ vs))
    ∙ rw (has_at b',' (join b',' (w ∷ vs))) (or_true (has b',' v))

has-join_space : (vs : List Text) → All IsValue vs → has b',' (join b' ' vs) ≡ false
unfolding join has
has-join_space [] all = refl
has-join_space (v ∷ []) (h, all) = h.no_comma
has-join_space (v ∷ w ∷ vs) (h, all) =
    has-append b',' v (b' ' ∷ join b' ' (w ∷ vs))
    ∙ rw (h.no_comma, has-join_space (w ∷ vs) all) refl

split_words-join : (vs : List Text) → All IsValue vs → split_words (join b' ' vs) ≡ vs
unfolding split_words join word_cut
split_words-join [] all = refl
split_words-join (v ∷ vs) (h, all) =
    split_words-cut (join b' ' (v ∷ vs)) v vs h.not_empty (word_cut-join v vs (h, all))

values_of-words : (s : Text) → has b',' s ≡ false → values_of s ≡ stripped_values (split_words s)
unfolding values_of
values_of-words s h = rw h refl

values_of-pieces : (s : Text) → has b',' s ≡ true → values_of s ≡ stripped_values (split_on b',' s)
unfolding values_of
values_of-pieces s h = rw h refl

values_of-spaces : (vs : List Text) → All IsValue vs → values_of (join b' ' vs) ≡ vs
values_of-spaces vs all =
    values_of-words (join b' ' vs) (has-join_space vs all)
    ∙ rw (split_words-join vs all) (stripped_values-IsValue vs all)

split_on-join :
    (v : Text) (vs : List Text) → All IsValue (v ∷ vs) → split_on b',' (join b',' (v ∷ vs)) ≡ v ∷ vs
unfolding split_on
split_on-join v vs all = rw (cut-join v vs all) refl

values_of-commas : (vs : List Text) → All IsValue vs → values_of (join b',' vs) ≡ vs
unfolding join
values_of-commas [] all = values_of-spaces [] all
values_of-commas (v ∷ []) all = values_of-spaces (v ∷ []) all
values_of-commas (v ∷ w ∷ vs) all =
    values_of-pieces (join b',' (v ∷ w ∷ vs)) (has-join_comma v w vs)
    ∙ rw (split_on-join v (w ∷ vs) all) (stripped_values-IsValue (v ∷ w ∷ vs) all)

-- However many values there are, written with a space between each two or with a comma between each
-- two, and each without a space or a comma and not empty, they are read back as they are.
pub values_of-join :
    (vs : List Text)
    → All IsValue vs
    → (values_of (join b' ' vs) ≡ vs) × (values_of (join b',' vs) ≡ vs)
values_of-join vs all = (values_of-spaces vs all, values_of-commas vs all)
