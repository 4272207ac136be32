-- ===== src/Interactive/Menu/Nodes/Keys.antt =====
-- The keys of `nodes` and of `nodes_meta` of canopen-interactive/co.py.
use canopen_tools.Prelude.{
  ℕ, zero, suc, ◌-◌, ◌≡◌, refl, sym, ap, subst, ◌∙◌, inl, inr, Bool, true, false, Option, none,
  some, List, [], ◌∷◌, map, get_elem?, All, if◌then◌else◌, ==_iff, Bool-cases, Option-cases,
}
use canopen_tools.Outcome.{ok}
use canopen_tools.Interactive.Text.{Text, ℤ, pos, negsuc}
use canopen_tools.Interactive.Dict.{get, set}
use canopen_tools.Interactive.Session.{index}
use canopen_tools.Interactive.Session.Chosen.{index_lem, index-none}
use canopen_tools.Interactive.Menu.{same_int}
use canopen_tools.Interactive.Menu.Library.{item}
use canopen_tools.Interactive.Menu.Nodes.{listed, node_at}

abbrev pub keys : {V : Type 0} → List (ℤ × V) → List ℤ
keys d = map (λ p. p.0) d

abbrev pub values : {V : Type 0} → List (ℤ × V) → List V
values d = map (λ p. p.1) d

unfoldable pub Distinct : List ℤ → Type 0
Distinct [] = Unit
Distinct (k ∷ ks) = All (λ j. same_int j k ≡ false) ks × Distinct ks

pub same_int_refl : (k : ℤ) → same_int k k ≡ true
same_int_refl (pos n) = (==_iff n n).1 refl
same_int_refl (negsuc n) = (==_iff n n).1 refl

pub same_int→≡ : (j k : ℤ) → same_int j k ≡ true → j ≡ k
same_int→≡ (pos m) (pos n) e = ap pos ((==_iff m n).0 e)
same_int→≡ (negsuc m) (negsuc n) e = ap negsuc ((==_iff m n).0 e)
same_int→≡ (pos m) (negsuc n) e = absurd (cc e)
same_int→≡ (negsuc m) (pos n) e = absurd (cc e)

same_int_sym : (j k : ℤ) → same_int j k ≡ false → same_int k j ≡ false
same_int_sym j k e = elim (Bool-cases (same_int k j)) [
  | inl h ↦ absurd (cc (same_int_refl k, same_int→≡ k j h, e))
  | inr h ↦ h
]

get_elem?-map :
    {A B : Type 0} (f : A → B) (xs : List A) (i : ℕ) (a : A)
    → get_elem? xs i ≡ some a
    → get_elem? (map f xs) i ≡ some (f a)
get_elem?-map f [] i a e = absurd (cc e)
get_elem?-map {A = A} {B = B} f (x ∷ xs) zero a e = ap f' e
  where
    f' : Option A → Option B
    f' none = none
    f' (some a) = some (f a)
get_elem?-map f (x ∷ xs) (suc i) a e = get_elem?-map f xs i a e

get_elem?-map-none :
    {A B : Type 0} (f : A → B) (xs : List A) (i : ℕ)
    → get_elem? xs i ≡ none
    → get_elem? (map f xs) i ≡ none
get_elem?-map-none f [] i e = refl
get_elem?-map-none f (x ∷ xs) zero e = absurd (cc e)
get_elem?-map-none f (x ∷ xs) (suc i) e = get_elem?-map-none f xs i e

other_key :
    (k : ℤ) (ks : List ℤ) (i : ℕ) (j : ℤ)
    → All (λ j. same_int j k ≡ false) ks
    → get_elem? ks i ≡ some j
    → same_int j k ≡ false
other_key k [] i j all e = absurd (cc e)
other_key k (l ∷ ks) zero j (h, all) e = subst (λ o. same_key o ≡ false) e h
  where
    same_key : Option ℤ → Bool
    same_key none = true
    same_key (some l) = same_int l k
other_key k (l ∷ ks) (suc i) j (h, all) e = other_key k ks i j all e

-- The key that `d[k] = v` adds behind the keys of `d`, unless it is one of them.
insert_key : ℤ → List ℤ → List ℤ
insert_key k [] = k ∷ []
insert_key k (j ∷ ks) = if same_int k j then j ∷ ks else j ∷ insert_key k ks

keys-set :
    {V : Type 0} (k : ℤ) (v : V) (d : List (ℤ × V))
    → keys (set same_int k v d) ≡ insert_key k (keys d)
unfolding set insert_key
keys-set k v [] = refl
keys-set k v ((j, u) ∷ d) = elim (Bool-cases (same_int k j)) [
  | inl e ↦ rw e refl
  | inr e ↦ rw e (ap (λ ks. j ∷ ks) (keys-set k v d))
]

insert_key-All : (P : ℤ → Type 0) (k : ℤ) (ks : List ℤ) → P k → All P ks → All P (insert_key k ks)
unfolding insert_key
insert_key-All P k [] h all = (h, tt)
insert_key-All P k (j ∷ ks) h (g, all) = elim (Bool-cases (same_int k j)) [
  | inl e ↦ rw e (g, all)
  | inr e ↦ rw e (g, insert_key-All P k ks h all)
]

insert_key-Distinct : (k : ℤ) (ks : List ℤ) → Distinct ks → Distinct (insert_key k ks)
unfolding insert_key Distinct
insert_key-Distinct k [] d = (tt, tt)
insert_key-Distinct k (j ∷ ks) (h, d) = elim (Bool-cases (same_int k j)) [
  | inl e ↦ rw e (h, d)
  | inr e ↦ rw e (insert_key-All (λ i. same_int i j ≡ false) k ks e h, insert_key-Distinct k ks d)
]

get_at :
    {V : Type 0} (d : List (ℤ × V)) (i : ℕ) (p : ℤ × V)
    → Distinct (keys d)
    → get_elem? d i ≡ some p
    → get same_int p.0 d ≡ some p.1
unfolding Distinct get
get_at [] i p h e = absurd (cc e)
get_at {V = V} ((k, v) ∷ d) zero p h e =
    subst (λ o. found o ≡ value o) e (rw (same_int_refl k) refl)
  where
    found : Option (ℤ × V) → Option V
    found none = none
    found (some q) = get same_int q.0 ((k, v) ∷ d)

    value : Option (ℤ × V) → Option V
    value none = none
    value (some q) = some q.1
get_at ((k, v) ∷ d) (suc i) p (h, g) e =
    rw (other_key k (keys d) i p.0 h (get_elem?-map (λ q. q.0) d i p e)) (get_at d i p g e)

item_lem :
    {V : Type 0} (k : ℤ) (d : List (ℤ × V)) (v : V) → get same_int k d ≡ some v → item k d ≡ ok v
unfolding item
item_lem k d v e = rw (e, item) refl

-- A dictionary's entry at a position is the one under the key at that position.
pub node_at-values :
    {N : Type 0} (d : List (ℤ × N)) (c : ℕ)
    → Distinct (keys d)
    → node_at (keys d) d c ≡ index (values d) (c - 1)
unfolding node_at
node_at-values d c h = elim (Option-cases (get_elem? d (c - 1))) [
  | inl e ↦
      rw (index-none (keys d) (c - 1) (get_elem?-map-none (λ q. q.0) d (c - 1) e), node_at)
        (sym (index-none (values d) (c - 1) (get_elem?-map-none (λ q. q.1) d (c - 1) e)))
  | inr (p, e) ↦
      rw (index_lem (keys d) (c - 1) p.0 (get_elem?-map (λ q. q.0) d (c - 1) p e), node_at)
        (item_lem p.0 d p.1 (get_at d (c - 1) p h e)
          ∙ sym (index_lem (values d) (c - 1) p.1 (get_elem?-map (λ q. q.1) d (c - 1) p e)))
]

-- Two dictionaries that get the same key keep the same keys, each once.
pub set-same_keys :
    {V U : Type 0} (k : ℤ) (v : V) (u : U) (d : List (ℤ × V)) (c : List (ℤ × U))
    → keys d ≡ keys c
    → keys (set same_int k v d) ≡ keys (set same_int k u c)
set-same_keys k v u d c e = keys-set k v d ∙ ap (insert_key k) e ∙ sym (keys-set k u c)

pub set-Distinct :
    {V : Type 0} (k : ℤ) (v : V) (d : List (ℤ × V))
    → Distinct (keys d)
    → Distinct (keys (set same_int k v d))
set-Distinct k v d h = subst Distinct (sym (keys-set k v d)) (insert_key-Distinct k (keys d) h)

-- Every key is in the dictionary.
Has : {V : Type 0} → List (ℤ × V) → ℤ → Type 0
Has {V} d k = (v : V) × (get same_int k d ≡ some v)

Has-cons : {V : Type 0} (p : ℤ × V) (d : List (ℤ × V)) (k : ℤ) → Has d k → Has (p ∷ d) k
unfolding Has get
Has-cons (j, u) d k (v, e) = elim (Bool-cases (same_int k j)) [
  | inl h ↦ rw h (u, refl)
  | inr h ↦ rw h (v, e)
]

All-Has-cons :
    {V : Type 0} (p : ℤ × V) (d : List (ℤ × V)) (ks : List ℤ)
    → All (Has d) ks
    → All (Has (p ∷ d)) ks
All-Has-cons p d [] all = tt
All-Has-cons p d (k ∷ ks) (h, all) = (Has-cons p d k h, All-Has-cons p d ks all)

All-Has : {V : Type 0} (d : List (ℤ × V)) → All (Has d) (keys d)
unfolding Has get
All-Has [] = tt
All-Has ((k, v) ∷ d) = (rw (same_int_refl k) (v, refl), All-Has-cons (k, v) d (keys d) (All-Has d))

listed_lem : (ks : List ℤ) (meta : List (ℤ × Text)) → All (Has meta) ks → listed ks meta ≡ ok tt
unfolding listed Has
listed_lem [] meta all = refl
listed_lem (k ∷ ks) meta ((v, e), all) = rw (item_lem k meta v e, listed) (listed_lem ks meta all)

-- No lookup of a node's name fails if the two dictionaries have the same keys.
pub listed-keys : (ks : List ℤ) (meta : List (ℤ × Text)) → ks ≡ keys meta → listed ks meta ≡ ok tt
listed-keys ks meta e = listed_lem ks meta (subst (All (Has meta)) (sym e) (All-Has meta))
