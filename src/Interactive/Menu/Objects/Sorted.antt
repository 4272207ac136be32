-- ===== src/Interactive/Menu/Objects/Sorted.antt =====
-- The choice and the order of `list_od_entries` of canopen-interactive/co.py.
use mathlib.Core.List.{Perm}
use mathlib.Core.List.Perm
use canopen_tools.Prelude.{
  ℕ, ◌≤◌, ◌≡◌, refl, Option, none, some, if◌then◌else◌, inl, inr, List, [], ◌∷◌, All, leb,
  Bool-cases, arith,
}
use canopen_tools.Interactive.Menu.Library.{Object}
use canopen_tools.Interactive.Text.{Text}
use canopen_tools.Interactive.Menu.Objects.{insert, sort, is_named, named}

-- The indexes ascend.
unfoldable pub Ascending : List (ℕ × Object) → Type 0
Ascending [] = Unit
Ascending (p ∷ ps) = All (λ q. p.0 ≤ q.0) ps × Ascending ps

All-le : (m n : ℕ) (ps : List (ℕ × Object)) → m ≤ n → All (λ q. n ≤ q.0) ps → All (λ q. m ≤ q.0) ps
All-le m n [] h all = tt
All-le m n (q ∷ qs) h (g, all) = (omega (arith, h, g), All-le m n qs h all)

insert-All :
    (m : ℕ) (p : ℕ × Object) (ps : List (ℕ × Object))
    → m ≤ p.0
    → All (λ q. m ≤ q.0) ps
    → All (λ q. m ≤ q.0) (insert p ps)
unfolding insert
insert-All m p [] h all = (h, tt)
insert-All m p (q ∷ qs) h (g, all) = elim (Bool-cases (leb p.0 q.0)) [
  | inl e ↦ rw e (h, (g, all))
  | inr e ↦ rw e (g, insert-All m p qs h all)
]

insert-Ascending :
    (p : ℕ × Object) (ps : List (ℕ × Object)) → Ascending ps → Ascending (insert p ps)
unfolding insert Ascending
insert-Ascending p [] h = (tt, tt)
insert-Ascending p (q ∷ qs) (h, a) = elim (Bool-cases (leb p.0 q.0)) [
  | inl e ↦ rw e ((ground arith, All-le p.0 q.0 qs (ground arith) h), (h, a))
  | inr e ↦ rw e (insert-All q.0 p qs (ground arith) h, insert-Ascending p qs a)
]

insert-Perm : (p : ℕ × Object) (ps : List (ℕ × Object)) → Perm (insert p ps) (p ∷ ps)
unfolding insert
insert-Perm p [] = Perm.rfl
insert-Perm p (q ∷ qs) = elim (Bool-cases (leb p.0 q.0)) [
  | inl e ↦ rw e Perm.rfl
  | inr e ↦ rw e (Perm.trans (Perm.cons q (insert-Perm p qs)) (Perm.swap p q qs))
]

pub sort-Ascending : (ps : List (ℕ × Object)) → Ascending (sort ps)
unfolding sort Ascending
sort-Ascending [] = tt
sort-Ascending (p ∷ ps) = insert-Ascending p (sort ps) (sort-Ascending ps)

pub sort-Perm : (ps : List (ℕ × Object)) → Perm (sort ps) ps
unfolding sort
sort-Perm [] = Perm.rfl
sort-Perm (p ∷ ps) = Perm.trans (insert-Perm p (sort ps)) (Perm.cons p (sort-Perm ps))

-- An object with a name that is not empty.
abbrev pub HasName : ℕ × Object → Type 0
HasName p = (c : ℕ) × (s : Text) × (p.1.name ≡ some (c ∷ s))

-- The second list is what is left of the first one without the objects that have no name.
pub data Picked : List (ℕ × Object) → List (ℕ × Object) → Type 0 where
  nil : Picked [] []
  keep :
      {p : ℕ × Object} {ps qs : List (ℕ × Object)}
      → HasName p
      → Picked ps qs
      → Picked (p ∷ ps) (p ∷ qs)
  leave :
      {p : ℕ × Object} {ps qs : List (ℕ × Object)}
      → ¬ (HasName p)
      → Picked ps qs
      → Picked (p ∷ ps) qs

pub named-Picked : (ps : List (ℕ × Object)) → Picked ps (named ps)
unfolding named is_named
named-Picked [] = nil
named-Picked (p ∷ ps) = go (named-Picked ps) p.1.name refl
  where
    go :
        Picked ps (named ps)
        → (o : Option Text) → p.1.name ≡ o
        → Picked (p ∷ ps) (if is_named o then p ∷ named ps else named ps)
    go rest none e = leave (λ (c, s, h). cc (e, h)) rest
    go rest (some []) e = leave (λ (c, s, h). cc (e, h)) rest
    go rest (some (c ∷ s)) e = keep (c, s, e) rest
