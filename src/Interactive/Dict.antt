-- ===== src/Interactive/Dict.antt =====
-- Python's dictionaries as lists of pairs, in the order of insertion.
use canopen_tools.Prelude.{
  Bool, true, false, ◌≡◌, refl, inl, inr, Option, none, some, List, [], ◌∷◌, if◌then◌else◌,
  Bool-cases,
}

same_first :
    {K : Type 0} (same : K → K → Bool)
    → ((j k : K) → same j k ≡ true → j ≡ k)
    → (k j i : K) → same k j ≡ false
    → same j i ≡ true
    → same k i ≡ false
same_first same same→≡ k j i other e = rw (same→≡ j i e) at other

-- `same` is `==` of the keys.
module _ {K V : Type 0} (same : K → K → Bool) where
  -- `d.get(k)`
  unfoldable pub get : K → List (K × V) → Option V
  get k [] = none
  get k ((j, v) ∷ d) = if same k j then some v else get k d

  -- `d[k] = v`: a key that is there keeps its place.
  unfoldable pub set : K → V → List (K × V) → List (K × V)
  set k v [] = (k, v) ∷ []
  set k v ((j, u) ∷ d) = if same k j then (j, v) ∷ d else (j, u) ∷ set k v d

  -- `d.pop(k, None)`
  unfoldable pub pop : K → List (K × V) → List (K × V)
  pop k [] = []
  pop k ((j, v) ∷ d) = if same k j then pop k d else (j, v) ∷ pop k d

  pub get-pop : (k : K) (d : List (K × V)) → get k (pop k d) ≡ none
  unfolding get pop
  get-pop k [] = refl
  get-pop k ((j, v) ∷ d) = elim (Bool-cases (same k j)) [
    | inl e ↦ rw e (get-pop k d)
    | inr e ↦ rw (e, e) (get-pop k d)
  ]

  module _ (same→≡ : (j k : K) → same j k ≡ true → j ≡ k) (k j : K) (other : same k j ≡ false) where
    pub get-set_other : (v : V) (d : List (K × V)) → get k (set j v d) ≡ get k d
    unfolding get set
    get-set_other v [] = rw other refl
    get-set_other v ((i, u) ∷ d) = elim (Bool-cases (same j i)) [
      | inl e ↦ rw (e, same_first same same→≡ k j i other e) refl
      | inr e ↦ rw (e, get-set_other v d) refl
    ]

    pub get-pop_other : (d : List (K × V)) → get k (pop j d) ≡ get k d
    unfolding get pop
    get-pop_other [] = refl
    get-pop_other ((i, u) ∷ d) = elim (Bool-cases (same j i)) [
      | inl e ↦ rw (e, same_first same same→≡ k j i other e, get-pop_other d) refl
      | inr e ↦ rw (e, get-pop_other d) refl
    ]

  pub get-set :
      ((j : K) → same j j ≡ true)
      → ((j k : K) → same j k ≡ true → j ≡ k)
      → (k : K) (v : V) (d : List (K × V)) → get k (set k v d) ≡ some v
  unfolding get set
  get-set same_refl same→≡ k v [] = rw (same_refl k) refl
  get-set same_refl same→≡ k v ((i, u) ∷ d) = elim (Bool-cases (same k i)) [
    | inl e ↦ rw (e, e) refl
    | inr e ↦ rw (e, e) (get-set same_refl same→≡ k v d)
  ]
