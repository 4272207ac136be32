-- ===== src/Framer/Lossless.antt =====
-- `next_record` keeps every byte and stops where no record is whole.
use canopen_tools.Prelude.{
  ℕ, zero, suc, ◌+◌, ◌*◌, ◌/◌, ◌%◌, ◌≤◌, ◌<◌, ◌≡◌, refl, sym, ap, ◌∙◌, none, some, List, [], ◌∷◌,
  ◌++◌, map, arith, length, take, drop, flatten, All, length-take, take-append-drop, append_assoc,
}
use mathlib.Core.Path.{ap₂}
use native.Mathlib.Decide.{dec_lt}
use canopen_tools.Framer.{Framer, next_record}
use canopen_tools.Framer.Front.{
  partial, complete, front, framed, next_record_partial, next_record_whole,
}
use canopen_tools.Framer.Stream.{split, split-nil, split_partial, split_complete}

abbrev pub IsByte : ℕ → Type 0
IsByte b = b < 256

framed-take-drop :
    (a b n : ℕ) (rest : List ℕ)
    → b < 256
    → n ≡ a * 256 + b
    → n ≤ length rest
    → framed (take n rest) ++ drop n rest ≡ a ∷ b ∷ rest
framed-take-drop a b n rest hb e h =
    ap₂ (λ (x y : ℕ). x ∷ y ∷ (take n rest ++ drop n rest)) high low
    ∙ ap (λ (t : List ℕ). a ∷ b ∷ t) (take-append-drop n rest)
  where
    high : length (take n rest) / 256 ≡ a
    high = omega (arith, length-take n rest)

    low : length (take n rest) % 256 ≡ b
    low = omega (arith, length-take n rest)

next_record-framed :
    (buf rec rest : List ℕ)
    → All IsByte buf
    → next_record (record { buf = buf }) ≡ (some rec, record { buf = rest })
    → framed rec ++ rest ≡ buf
next_record-framed [] rec rest bytes e = unfold next_record in cc
next_record-framed (a ∷ []) rec rest bytes e = unfold next_record in cc
next_record-framed (a ∷ b ∷ xs) rec rest bytes e = elim (dec_lt (length xs) (a * 256 + b)) [
  | yes short ↦ cc (next_record_partial a b xs short)
  | no long ↦
      let found = next_record_whole a b (a * 256 + b) xs refl (omega arith) in
      let same : take (a * 256 + b) xs ≡ rec = cc in
      let left : drop (a * 256 + b) xs ≡ rest = cc in
      ap₂ (λ (r t : List ℕ). framed r ++ t) (sym same) (sym left)
      ∙ framed-take-drop a b (a * 256 + b) xs bytes.1.0 refl (omega arith)
]

All-append_right {ℓ κ} :
    {A : Type ℓ} (P : A → Type κ) (xs ys : List A) → All P (xs ++ ys) → All P ys
All-append_right P [] ys h = h
All-append_right P (x ∷ xs) ys h = All-append_right P xs ys h.1

-- Bytes of the stream, from its records and what is left.
abbrev pub rejoin : List (List ℕ) × Framer → List ℕ
rejoin (recs, f) = flatten (map framed recs) ++ f.buf

-- Too short for a record: not both bytes of the length are there, or fewer bytes behind them than
-- they say.
abbrev pub IsShort : List ℕ → Type 0
IsShort [] = Unit
IsShort (a ∷ []) = Unit
IsShort (a ∷ b ∷ rest) = length rest < a * 256 + b

partial-IsShort :
    (buf : List ℕ) → next_record (record { buf = buf }) ≡ (none, record { buf = buf }) → IsShort buf
partial-IsShort [] e = tt
partial-IsShort (a ∷ []) e = tt
partial-IsShort (a ∷ b ∷ rest) e = elim (dec_lt (length rest) (a * 256 + b)) [
  | yes short ↦ short
  | no long ↦ cc (next_record_whole a b (a * 256 + b) rest refl (omega arith), e)
]

split_lossless_fuel :
    (fuel : ℕ) (buf : List ℕ)
    → length buf ≤ fuel
    → All IsByte buf
    → (rejoin (split buf) ≡ buf) × IsShort (split buf).1.buf
split_lossless_fuel zero [] h bytes = rw split-nil (refl, tt)
split_lossless_fuel zero (x ∷ buf) h bytes = absurd (omega arith)
split_lossless_fuel (suc fuel) buf h bytes = elim (front buf) [
  | partial p ↦ rw (split_partial buf p) (refl, partial-IsShort buf p)
  | complete rec rest p len grow ↦
      let whole = next_record-framed buf rec rest bytes p in
      let rest_bytes = All-append_right IsByte (framed rec) rest (rw (← whole) at bytes) in
      let ih = split_lossless_fuel fuel rest (omega arith) rest_bytes in
      rw (split_complete buf rec rest p len)
        (append_assoc (framed rec) _ _ ∙ ap (λ (t : List ℕ). framed rec ++ t) ih.0 ∙ whole, ih.1)
]

-- Taking records from a buffer of bytes until none is whole loses and invents nothing, and leaves no
-- record that is there: the records, each behind its two length bytes, and then what is left are the
-- buffer again, and what is left has fewer than two bytes, or fewer behind them than they say.
pub split_lossless :
    (buf : List ℕ) → All IsByte buf → (rejoin (split buf) ≡ buf) × IsShort (split buf).1.buf
split_lossless buf bytes = split_lossless_fuel (length buf) buf (omega arith) bytes
