-- ===== src/Framer/Front.antt =====
-- One call of `next_record`: the buffer waits for more bytes, or begins with a whole record.
use canopen_tools.Prelude.{
  ℕ, suc, ◌+◌, ◌-◌, ◌*◌, ◌/◌, ◌%◌, ◌≤◌, ◌<◌, ◌≡◌, refl, ◌∙◌, Option, none, some, List, [], ◌∷◌,
  ◌++◌, arith, length, take, drop, length-append, length-drop, take-append_of_le, drop-append_of_le,
  le→ltb, length-take,
}
use native.Mathlib.Decide.{dec_lt}
use canopen_tools.Framer.{Framer, next_record}

-- The length prefix that the sender writes before a record.
abbrev pub framed : List ℕ → List ℕ
framed rec = (length rec / 256) ∷ (length rec % 256) ∷ rec

pub next_record_partial :
    (a b : ℕ) (rest : List ℕ)
    → length rest < a * 256 + b
    → next_record (record { buf = a ∷ b ∷ rest }) ≡ (none, record { buf = a ∷ b ∷ rest })
unfolding next_record
next_record_partial a b rest h = ground arith

pub next_record_whole :
    (a b n : ℕ) (rest : List ℕ)
    → n ≡ a * 256 + b
    → n ≤ length rest
    → next_record (record { buf = a ∷ b ∷ rest })
      ≡ (some (take n rest), record { buf = drop n rest })
unfolding next_record
next_record_whole a b n rest e h =
    rw
      (
        le→ltb (suc (suc (length rest))) 2 (omega arith),
        le→ltb (suc (suc (length rest))) (2 + (a * 256 + b)) (omega arith),
        two_more,
        minus_two,
      )
      (rw e)
  where
    two_more : 2 + (a * 256 + b) ≡ suc (suc (a * 256 + b))
    two_more = omega arith

    minus_two : suc (suc (a * 256 + b)) - 2 ≡ a * 256 + b
    minus_two = omega arith

-- A step of the framer on its buffer: either the buffer waits for more, or it begins with a record.
pub data Front (buf : List ℕ) : Type 0 where
  partial : next_record (record { buf = buf }) ≡ (none, record { buf = buf }) → Front buf
  complete :
      (rec rest : List ℕ)
      → next_record (record { buf = buf }) ≡ (some rec, record { buf = rest })
      → length rest + 2 + length rec ≡ length buf
      → ((more : List ℕ)
          → next_record (record { buf = buf ++ more }) ≡ (some rec, record { buf = rest ++ more }))
      → Front buf

pub front : (buf : List ℕ) → Front buf
front [] = partial (unfold next_record in refl)
front (a ∷ []) = partial (unfold next_record in refl)
front (a ∷ b ∷ rest) = elim (dec_lt (length rest) (a * 256 + b)) [
  | yes short ↦ partial (next_record_partial a b rest short)
  | no long ↦
      complete (take (a * 256 + b) rest) (drop (a * 256 + b) rest)
        (next_record_whole a b (a * 256 + b) rest refl (omega arith))
        (omega (arith, length-take (a * 256 + b) rest, length-drop (a * 256 + b) rest))
        (λ more.
          next_record_whole a b (a * 256 + b) (rest ++ more) refl
            (omega (arith, length-append rest more))
          ∙ cut (a * 256 + b) rest more (omega arith))
]
  where
    cut :
        (n : ℕ) (xs ys : List ℕ)
        → n ≤ length xs
        → ◌≡◌ {A = Option (List ℕ) × Framer}
            (some (take n (xs ++ ys)), record { buf = drop n (xs ++ ys) })
            (some (take n xs), record { buf = drop n xs ++ ys })
    cut n xs ys h = rw (take-append_of_le n xs ys h, drop-append_of_le n xs ys h)
