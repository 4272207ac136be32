-- ===== src/Bridge/Config/Kept.antt =====
-- What the merge of can-tcp-bridge/can-tcp-bridge-server/can_tcp_bridge.py does to the values that
-- the user wrote.
use canopen_tools.Prelude.{
  ℕ, false, ◌≡◌, refl, sym, ap, ◌∙◌, inl, inr, ◌==◌, ==_iff, Option, none, some, List, [], ◌∷◌,
  Bool-cases,
}
use canopen_tools.Outcome.{Exn, Result, ok, raise, attribute_error, ◌>>=◌}
use canopen_tools.Bridge.Config.{
  Scalar, Value, scalar, node, Entries, nil, entry, find, put, set_default, merge_node, merge,
}

-- The value at a path of keys.
unfoldable pub follow : Option Value → List ℕ → Option Value
follow none p = none
follow (some v) [] = some v
follow (some (scalar s)) (k ∷ p) = none
follow (some (node d)) (k ∷ p) = follow (find k d) p

pub find-put : (k : ℕ) (v : Value) (d : Entries) → find k (put k v d) ≡ some v
unfolding find put
find-put k v nil = rw ((==_iff k k).1 refl) refl
find-put k v (entry j u d) = elim (Bool-cases (k == j)) [
  | inl e ↦ rw (e, e) refl
  | inr e ↦ rw (e, e) (find-put k v d)
]

pub find-put_other :
    (j k : ℕ) (v : Value) (d : Entries) → (j == k) ≡ false → find j (put k v d) ≡ find j d
unfolding find put
find-put_other j k v nil other = rw other refl
find-put_other j k v (entry i u d) other = elim (Bool-cases (k == i)) [
  | inl e ↦ rw (e, sym ((==_iff k i).0 e), other) refl
  | inr e ↦ rw (e, find-put_other j k v d other) refl
]

-- Every scalar that the first value has at a path, the second has there.
abbrev Keeps : Option Value → Option Value → Type 0
Keeps a b = (p : List ℕ) (s : Scalar) → follow a p ≡ some (scalar s) → follow b p ≡ some (scalar s)

put-Keeps :
    (k : ℕ) (u : Value) (d : Entries)
    → Keeps (find k d) (some u)
    → Keeps (some (node d)) (some (node (put k u d)))
unfolding follow
put-Keeps k u d keeps [] s h = cc h
put-Keeps k u d keeps (j ∷ p) s h = elim (Bool-cases (j == k)) [
  | inl e ↦
      ap (λ i. follow (find i (put k u d)) p) ((==_iff j k).0 e)
      ∙ ap (λ o. follow o p) (find-put k u d)
      ∙ keeps p s (ap (λ i. follow (find i d) p) (sym ((==_iff j k).0 e)) ∙ h)
  | inr other ↦ ap (λ o. follow o p) (find-put_other j k u d other) ∙ h
]

set_default-Keeps :
    (k : ℕ) (v : Value) (d : Entries) (o : Option Value)
    → find k d ≡ o
    → Keeps (some (node d)) (some (node (set_default k v d o)))
unfolding set_default follow
set_default-Keeps k v d (some u) e p s h = h
set_default-Keeps k v d none e p s h = put-Keeps k v d (λ q t i. cc (rw e at i)) p s h

merge_node-Keeps :
    (merge_v : Entries → Result Entries) (v : Entries) (o : Option Value) (u : Value)
    → ((d m : Entries) → merge_v d ≡ ok m → Keeps (some (node d)) (some (node m)))
    → merge_node merge_v v o ≡ ok u
    → Keeps o (some u)
unfolding merge_node follow
merge_node-Keeps merge_v v none u later e p s h = cc h
merge_node-Keeps merge_v nil (some (scalar t)) u later e p s h =
    ap (λ w. follow (some w) p) (cc e) ∙ h
merge_node-Keeps merge_v (entry j w v) (some (scalar t)) u later e p s h = cc e
merge_node-Keeps merge_v v (some (node d)) u later e p s h = go (merge_v d) refl e
  where
    go :
        (r : Result Entries)
        → merge_v d ≡ r
        → (r >>= λ m. ok (node m)) ≡ ok u
        → follow (some u) p ≡ some (scalar s)
    go (ok m) f g = ap (λ w. follow (some w) p) (cc g) ∙ later d m f p s h
    go (raise x) f g = cc g

-- The step of the merge at a nested dictionary.
nested-Keeps :
    (src dst m : Entries) (k : ℕ) (r : Result Value)
    → ((u : Value) → r ≡ ok u → Keeps (find k dst) (some u))
    → ((d : Entries) → merge src d ≡ ok m → Keeps (some (node d)) (some (node m)))
    → (r >>= λ u. merge src (put k u dst)) ≡ ok m
    → Keeps (some (node dst)) (some (node m))
nested-Keeps src dst m k (ok u) inner later e p s h =
    later (put k u dst) e p s (put-Keeps k u dst (inner u refl) p s h)
nested-Keeps src dst m k (raise x) inner later e p s h = cc e

merge-Keeps : (src dst m : Entries) → merge src dst ≡ ok m → Keeps (some (node dst)) (some (node m))
unfolding merge
merge-Keeps nil dst m e p s h = ap (λ d. follow (some (node d)) p) (cc e) ∙ h
merge-Keeps (entry k (scalar v) src) dst m e p s h =
    merge-Keeps src (set_default k (scalar v) dst (find k dst)) m e p s
      (set_default-Keeps k (scalar v) dst (find k dst) refl p s h)
merge-Keeps (entry k (node v) src) dst m e p s h =
    nested-Keeps src dst m k (merge_node (merge v) v (find k dst))
      (λ u. merge_node-Keeps (merge v) v (find k dst) u (λ d n. merge-Keeps v d n))
      (λ d. merge-Keeps src d m) e p s h

bind-raise :
    {A B P : Type 0} (r : Result A) (f : A → Result B) (x : Exn)
    → (r ≡ raise x → P)
    → ((a : A) → f a ≡ raise x → P)
    → (r >>= f) ≡ raise x
    → P
bind-raise (ok a) f x first second e = second a e
bind-raise (raise y) f x first second e = first (cc e)

merge_node-raise :
    (merge_v : Entries → Result Entries) (v : Entries) (o : Option Value) (x : Exn)
    → ((d : Entries) → merge_v d ≡ raise x → x ≡ attribute_error)
    → merge_node merge_v v o ≡ raise x
    → x ≡ attribute_error
unfolding merge_node
merge_node-raise merge_v v none x later e =
    bind-raise (merge_v nil) (λ m. ok (node m)) x (later nil) (λ m g. cc g) e
merge_node-raise merge_v nil (some (scalar t)) x later e = cc e
merge_node-raise merge_v (entry j w v) (some (scalar t)) x later e = cc e
merge_node-raise merge_v v (some (node d)) x later e =
    bind-raise (merge_v d) (λ m. ok (node m)) x (later d) (λ m g. cc g) e

merge-raise : (src dst : Entries) (x : Exn) → merge src dst ≡ raise x → x ≡ attribute_error
unfolding merge
merge-raise nil dst x e = cc e
merge-raise (entry k (scalar v) src) dst x e =
    merge-raise src (set_default k (scalar v) dst (find k dst)) x e
merge-raise (entry k (node v) src) dst x e =
    bind-raise (merge_node (merge v) v (find k dst)) (λ u. merge src (put k u dst)) x
      (merge_node-raise (merge v) v (find k dst) x (λ d. merge-raise v d x))
      (λ u. merge-raise src (put k u dst) x) e

-- The value at a path after the merge.
abbrev HasAt : List ℕ → Scalar → Result Entries → Type 0
HasAt p s (ok m) = follow (some (node m)) p ≡ some (scalar s)
HasAt p s (raise x) = x ≡ attribute_error

-- Whatever the defaults: a value other than a dictionary that the user's configuration has at a path
-- of keys, however deep, the merged configuration has there as well; a merge that gives no
-- configuration raises AttributeError.
merge-HasAt :
    (defaults cfg : Entries) (p : List ℕ) (s : Scalar)
    → follow (some (node cfg)) p ≡ some (scalar s)
    → HasAt p s (merge defaults cfg)
merge-HasAt defaults cfg p s there = go (merge defaults cfg) refl
  where
    go : (r : Result Entries) → merge defaults cfg ≡ r → HasAt p s r
    go (ok m) e = merge-Keeps defaults cfg m e p s there
    go (raise x) e = merge-raise defaults cfg x e
