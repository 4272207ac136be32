-- ===== src/Framer/Stream.antt =====
-- The records of a byte stream, however it was cut into chunks.
use canopen_tools.Prelude.{
  ℕ, zero, suc, ◌+◌, ◌/◌, ◌%◌, ◌≤◌, ◌≡◌, refl, sym, ap, ◌∙◌, Option, none, some, List, [], ◌∷◌,
  ◌++◌, arith, length, length-append, take-append_of_le, drop-append_of_le, take-length,
  drop-length,
}
use canopen_tools.Framer.Front.{partial, complete, front, framed, next_record_whole}
use canopen_tools.Framer.{Framer, next_record}

-- The loop `while True: rec = next_record(); if rec is None: break`, on fuel.
unfoldable pub take_one :
    (Framer → List (List ℕ) × Framer) → Option (List ℕ) × Framer → List (List ℕ) × Framer
take_one again (none, g) = ([], g)
take_one again (some rec, g) = (rec ∷ (again g).0, (again g).1)

unfoldable pub drain : ℕ → Framer → List (List ℕ) × Framer
unfolding take_one
drain zero f = ([], f)
drain (suc fuel) f = take_one (drain fuel) (next_record f)

drain_partial :
    (fuel : ℕ) (buf : List ℕ)
    → next_record (record { buf = buf }) ≡ (none, record { buf = buf })
    → drain fuel (record { buf = buf }) ≡ ([], record { buf = buf })
unfolding drain
drain_partial zero buf h = refl
drain_partial (suc fuel) buf h = rw (h, drain)

drain_complete :
    (fuel : ℕ) (buf rec rest : List ℕ)
    → next_record (record { buf = buf }) ≡ (some rec, record { buf = rest })
    → drain (suc fuel) (record { buf = buf })
      ≡ (rec ∷ (drain fuel (record { buf = rest })).0, (drain fuel (record { buf = rest })).1)
unfolding drain
drain_complete fuel buf rec rest h = rw (h, drain)

-- With as much fuel as bytes, or more, the loop ends by its own test: more fuel changes nothing.
drain_fuel :
    (f g : ℕ) (buf : List ℕ)
    → length buf ≤ f
    → length buf ≤ g
    → drain f (record { buf = buf }) ≡ drain g (record { buf = buf })
drain_fuel zero zero buf hf hg = refl
drain_fuel zero (suc g) buf hf hg = elim (front buf) [
  | partial p ↦ drain_partial zero buf p ∙ sym (drain_partial (suc g) buf p)
  | complete rec rest p len grow ↦ absurd (omega arith)
]
drain_fuel (suc f) zero buf hf hg = elim (front buf) [
  | partial p ↦ drain_partial (suc f) buf p ∙ sym (drain_partial zero buf p)
  | complete rec rest p len grow ↦ absurd (omega arith)
]
drain_fuel (suc f) (suc g) buf hf hg = elim (front buf) [
  | partial p ↦ drain_partial (suc f) buf p ∙ sym (drain_partial (suc g) buf p)
  | complete rec rest p len grow ↦
      drain_complete f buf rec rest p
      ∙ ap (λ (r : List (List ℕ) × Framer). (rec ∷ r.0, r.1))
          (drain_fuel f g rest (omega arith) (omega arith))
      ∙ sym (drain_complete g buf rec rest p)
]

-- All records of a buffer, and what is left of it.
unfoldable pub split : List ℕ → List (List ℕ) × Framer
unfolding drain
split buf = drain (length buf) (record { buf = buf })

pub drain-eq-split :
    (fuel : ℕ) (buf : List ℕ) → length buf ≤ fuel → drain fuel (record { buf = buf }) ≡ split buf
unfolding split
drain-eq-split fuel buf h = drain_fuel fuel (length buf) buf h (omega arith)

pub split_partial :
    (buf : List ℕ)
    → next_record (record { buf = buf }) ≡ (none, record { buf = buf })
    → split buf ≡ ([], record { buf = buf })
unfolding split
split_partial buf p = drain_partial (length buf) buf p

pub split-nil : split [] ≡ ([], record { buf = [] })
split-nil = split_partial [] (unfold next_record in refl)

pub split_complete :
    (buf rec rest : List ℕ)
    → next_record (record { buf = buf }) ≡ (some rec, record { buf = rest })
    → length rest + 2 + length rec ≡ length buf
    → split buf ≡ (rec ∷ (split rest).0, (split rest).1)
split_complete buf rec rest p len =
    sym (drain-eq-split (suc (length buf)) buf (omega arith))
    ∙ drain_complete (length buf) buf rec rest p
    ∙ ap (λ (r : List (List ℕ) × Framer). (rec ∷ r.0, r.1))
        (drain-eq-split (length buf) rest (omega arith))

-- The records before a cut, and then those of the rest and what follows.
split-append_fuel :
    (fuel : ℕ) (buf more : List ℕ)
    → length buf ≤ fuel
    → split (buf ++ more) ≡ (
      (split buf).0 ++ (split ((split buf).1.buf ++ more)).0,
      (split ((split buf).1.buf ++ more)).1,
    )
split-append_fuel zero [] more h = rw (split_partial [] (unfold next_record in refl))
split-append_fuel zero (x ∷ buf) more h = absurd (omega arith)
split-append_fuel (suc fuel) buf more h = elim (front buf) [
  | partial p ↦ rw (split_partial buf p)
  | complete rec rest p len grow ↦
      split_complete (buf ++ more) rec (rest ++ more) (grow more)
        (omega (arith, length-append buf more, length-append rest more))
      ∙ ap (λ (r : List (List ℕ) × Framer). (rec ∷ r.0, r.1))
          (split-append_fuel fuel rest more (omega arith))
      ∙ sym (
          ap
            (λ (r : List (List ℕ) × Framer).
              (r.0 ++ (split (r.1.buf ++ more)).0, (split (r.1.buf ++ more)).1))
            (split_complete buf rec rest p len))
]

pub split-append :
    (buf more : List ℕ)
    → split (buf ++ more) ≡ (
      (split buf).0 ++ (split ((split buf).1.buf ++ more)).0,
      (split ((split buf).1.buf ++ more)).1,
    )
split-append buf more = split-append_fuel (length buf) buf more (omega arith)

-- What is left holds no complete record.
split_rest_fuel :
    (fuel : ℕ) (buf : List ℕ) → length buf ≤ fuel → split (split buf).1.buf ≡ ([], (split buf).1)
split_rest_fuel zero [] h = let p = split_partial [] (unfold next_record in refl) in rw p p
split_rest_fuel zero (x ∷ buf) h = absurd (omega arith)
split_rest_fuel (suc fuel) buf h = elim (front buf) [
  | partial p ↦ rw (split_partial buf p) (split_partial buf p)
  | complete rec rest p len grow ↦
      rw (split_complete buf rec rest p len) (split_rest_fuel fuel rest (omega arith))
]

pub split_rest : (buf : List ℕ) → split (split buf).1.buf ≡ ([], (split buf).1)
split_rest buf = split_rest_fuel (length buf) buf (omega arith)

pub split-framed :
    (rec rest : List ℕ) → split (framed rec ++ rest) ≡ (rec ∷ (split rest).0, (split rest).1)
split-framed rec rest =
    split_complete (framed rec ++ rest) rec rest
      (next_record_whole (length rec / 256) (length rec % 256) (length rec) (rec ++ rest)
          (omega arith) (omega (arith, length-append rec rest))
        ∙ rw (
          take-append_of_le (length rec) rec rest (omega arith),
          drop-append_of_le (length rec) rec rest (omega arith),
          take-length rec,
          drop-length rec,
        ))
      (omega (arith, length-append rec rest))
