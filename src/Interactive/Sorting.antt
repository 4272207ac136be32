-- ===== src/Interactive/Sorting.antt =====
-- `sorted(d.items())` of canopen-interactive/co.py, for a dictionary, whose keys decide the order.
use mathlib.Core.List.{Perm}
use mathlib.Core.List.Perm
use canopen_tools.Prelude.{
  Bool, true, false, ◌≡◌, inl, inr, List, [], ◌∷◌, All, Bool-cases, if◌then◌else◌,
}

-- A comparison of keys that orders them.
pub record IsOrder {K : Type 0} (below : K → K → Bool) : Type 0 where
  pub total : (a b : K) → below a b ≡ false → below b a ≡ true
  pub transitive : (a b c : K) → below a b ≡ true → below b c ≡ true → below a c ≡ true

module _ {K V : Type 0} (below : K → K → Bool) where
  unfoldable pub insert_item : K × V → List (K × V) → List (K × V)
  insert_item p [] = p ∷ []
  insert_item p (q ∷ qs) =
      let rest = insert_item p qs in if below p.0 q.0 then p ∷ q ∷ qs else q ∷ rest

  unfoldable pub sorted : List (K × V) → List (K × V)
  unfolding insert_item
  sorted [] = []
  sorted (p ∷ ps) = insert_item p (sorted ps)

  abbrev pub Ascending : List (K × V) → Type 0
  Ascending [] = Unit
  Ascending (p ∷ ps) = All (λ q. below p.0 q.0 ≡ true) ps × Ascending ps

  insert_item-Perm : (p : K × V) (ps : List (K × V)) → Perm (insert_item p ps) (p ∷ ps)
  unfolding insert_item
  insert_item-Perm p [] = Perm.rfl
  insert_item-Perm p (q ∷ qs) = elim (Bool-cases (below p.0 q.0)) [
    | inl e ↦ rw e Perm.rfl
    | inr e ↦ rw e (Perm.trans (Perm.cons q (insert_item-Perm p qs)) (Perm.swap p q qs))
  ]

  pub sorted-Perm : (ps : List (K × V)) → Perm (sorted ps) ps
  unfolding sorted
  sorted-Perm [] = Perm.rfl
  sorted-Perm (p ∷ ps) = Perm.trans (insert_item-Perm p (sorted ps)) (Perm.cons p (sorted-Perm ps))

  module _ (order : IsOrder below) where
    All-below :
        (j k : K) (ps : List (K × V))
        → below j k ≡ true
        → All (λ q. below k q.0 ≡ true) ps
        → All (λ q. below j q.0 ≡ true) ps
    All-below j k [] h all = tt
    All-below j k (q ∷ qs) h (g, all) = (order.transitive j k q.0 h g, All-below j k qs h all)

    insert_item-All :
        (k : K) (p : K × V) (ps : List (K × V))
        → below k p.0 ≡ true
        → All (λ q. below k q.0 ≡ true) ps
        → All (λ q. below k q.0 ≡ true) (insert_item p ps)
    unfolding insert_item
    insert_item-All k p [] h all = (h, tt)
    insert_item-All k p (q ∷ qs) h (g, all) = elim (Bool-cases (below p.0 q.0)) [
      | inl e ↦ rw e (h, (g, all))
      | inr e ↦ rw e (g, insert_item-All k p qs h all)
    ]

    insert_item-Ascending :
        (p : K × V) (ps : List (K × V)) → Ascending ps → Ascending (insert_item p ps)
    unfolding insert_item
    insert_item-Ascending p [] h = (tt, tt)
    insert_item-Ascending p (q ∷ qs) (h, a) = elim (Bool-cases (below p.0 q.0)) [
      | inl e ↦ rw e ((e, All-below p.0 q.0 qs e h), (h, a))
      | inr e ↦
          rw e (insert_item-All q.0 p qs (order.total p.0 q.0 e) h, insert_item-Ascending p qs a)
    ]

    pub sorted-Ascending : (ps : List (K × V)) → Ascending (sorted ps)
    unfolding sorted
    sorted-Ascending [] = tt
    sorted-Ascending (p ∷ ps) = insert_item-Ascending p (sorted ps) (sorted-Ascending ps)
