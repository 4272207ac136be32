-- ===== src/Bridge/Config/Fills.antt =====
-- Which settings the merge of can-tcp-bridge/can-tcp-bridge-server/can_tcp_bridge.py takes from the
-- defaults.
use canopen_tools.Prelude.{
  ℕ, true, false, ◌≡◌, refl, sym, ap, subst, ◌∙◌, inl, inr, ◌==◌, ==_iff, Option, none, some, List,
  [], ◌∷◌, Bool-cases,
}
use canopen_tools.Outcome.{Result, ok, raise, ◌>>=◌}
use canopen_tools.Bridge.Config.{
  Scalar, Value, scalar, node, Entries, nil, entry, find, put, set_default, merge_node, merge,
  default_can, default_config, load_config, integer, peer_port, client_port, get_or, value_or,
}
use canopen_tools.Bridge.Config.Kept.{follow, find-put, find-put_other}

-- No key stands twice in a dictionary or in one within it.
abbrev mutual
  IsDict : Entries → Type 0
  IsDict nil = Unit
  IsDict (entry k v d) = (find k d ≡ none) × (IsDictValue v × IsDict d)

  IsDictValue : Value → Type 0
  IsDictValue (scalar s) = Unit
  IsDictValue (node d) = IsDict d

-- A step of the merge that gives a result: the result of its first part.
bind-ok :
    {A B P : Type 0} (r : Result A) (f : A → Result B) (b : B)
    → (r >>= f) ≡ ok b
    → ((a : A) → r ≡ ok a → f a ≡ ok b → P)
    → P
bind-ok (ok a) f b e later = later a refl e
bind-ok (raise x) f b e later = cc e

pub set_default-find_other :
    (i k : ℕ) (v : Value) (d : Entries) (o : Option Value)
    → (i == k) ≡ false
    → find i (set_default k v d o) ≡ find i d
unfolding set_default
set_default-find_other i k v d none other = find-put_other i k v d other
set_default-find_other i k v d (some u) other = refl

not_head :
    (i k : ℕ) (v : Value) (d : Entries)
    → find i (entry k v d) ≡ none
    → ((i == k) ≡ false) × (find i d ≡ none)
unfolding find
not_head i k v d h = elim (Bool-cases (i == k)) [ inl e ↦ cc (rw e at h) | inr e ↦ (e, rw e at h) ]

-- A key that the defaults do not have stays as it is.
merge-find_other :
    (i : ℕ) (src dst m : Entries) → merge src dst ≡ ok m → find i src ≡ none → find i m ≡ find i dst
unfolding merge
merge-find_other i nil dst m e h = ap (find i) (cc e)
merge-find_other i (entry k (scalar s) src) dst m e h =
    let (other, rest) = not_head i k (scalar s) src h in
    merge-find_other i src (set_default k (scalar s) dst (find k dst)) m e rest
    ∙ set_default-find_other i k (scalar s) dst (find k dst) other
merge-find_other i (entry k (node v) src) dst m e h =
    let (other, rest) = not_head i k (node v) src h in
    bind-ok (merge_node (merge v) v (find k dst)) (λ u. merge src (put k u dst)) m e
      (λ u _ later.
        merge-find_other i src (put k u dst) m later rest ∙ find-put_other i k u dst other)

-- What the merged dictionary has at a key, from the default and from what the user wrote there.
abbrev Merged : Value → Option Value → Option Value → Type 0
Merged (scalar s) none r = r ≡ some (scalar s)
Merged (scalar s) (some u) r = r ≡ some u
Merged (node v) o r = (u : Value) × (merge_node (merge v) v o ≡ ok u) × (r ≡ some u)

set_default-Merged :
    (k : ℕ) (s : Scalar) (d : Entries) (o : Option Value)
    → find k d ≡ o
    → Merged (scalar s) o (find k (set_default k (scalar s) d o))
unfolding set_default
set_default-Merged k s d none e = find-put k (scalar s) d
set_default-Merged k s d (some u) e = e

merge-Merged_head :
    (k : ℕ) (v : Value) (src dst m : Entries)
    → find k src ≡ none
    → merge (entry k v src) dst ≡ ok m
    → Merged v (find k dst) (find k m)
unfolding merge
merge-Merged_head k (scalar s) src dst m once e =
    subst (Merged (scalar s) (find k dst))
      (sym (merge-find_other k src (set_default k (scalar s) dst (find k dst)) m e once))
      (set_default-Merged k s dst (find k dst) refl)
merge-Merged_head k (node v) src dst m once e =
    bind-ok (merge_node (merge v) v (find k dst)) (λ u. merge src (put k u dst)) m e
      (λ u first later.
        (u, first, merge-find_other k src (put k u dst) m later once ∙ find-put k u dst))

at_head :
    (k : ℕ) (v : Value) (j : ℕ) (w : Value) (src dst m : Entries)
    → find j src ≡ none
    → merge (entry j w src) dst ≡ ok m
    → (k == j) ≡ true
    → find k (entry j w src) ≡ some v
    → Merged v (find k dst) (find k m)
unfolding find
at_head k v j w src dst m once e same h =
    subst (λ i. Merged v (find i dst) (find i m)) (sym ((==_iff k j).0 same))
      (subst (λ u. Merged u (find j dst) (find j m)) (cc (rw same at h))
        (merge-Merged_head j w src dst m once e))

merge-Merged :
    (k : ℕ) (v : Value) (src dst m : Entries)
    → IsDict src
    → merge src dst ≡ ok m
    → find k src ≡ some v
    → Merged v (find k dst) (find k m)
unfolding merge find
merge-Merged k v nil dst m dict e h = cc h
merge-Merged k v (entry j (scalar t) src) dst m (once, (dw, rest)) e h =
    elim (Bool-cases (k == j)) [
      | inl same ↦ at_head k v j (scalar t) src dst m once e same h
      | inr other ↦
          subst (λ o. Merged v o (find k m))
            (set_default-find_other k j (scalar t) dst (find j dst) other)
            (merge-Merged k v src (set_default j (scalar t) dst (find j dst)) m rest e
              (rw other at h))
    ]
merge-Merged k v (entry j (node w) src) dst m (once, (dw, rest)) e h = elim (Bool-cases (k == j)) [
  | inl same ↦ at_head k v j (node w) src dst m once e same h
  | inr other ↦
      bind-ok (merge_node (merge w) w (find j dst)) (λ u. merge src (put j u dst)) m e
        (λ u _ later.
          subst (λ o. Merged v o (find k m)) (find-put_other k j u dst other)
            (merge-Merged k v src (put j u dst) m rest later (rw other at h)))
]

find-IsDict : (k : ℕ) (v d : Entries) → IsDict d → find k d ≡ some (node v) → IsDict v
unfolding find
find-IsDict k v nil dict h = cc h
find-IsDict k v (entry j (scalar s) d) (once, (dw, rest)) h = elim (Bool-cases (k == j)) [
  | inl same ↦ cc (rw same at h)
  | inr other ↦ find-IsDict k v d rest (rw other at h)
]
find-IsDict k v (entry j (node w) d) (once, (dw, rest)) h = elim (Bool-cases (k == j)) [
  | inl same ↦ subst IsDictValue {x = node w} {y = node v} (cc (rw same at h)) dw
  | inr other ↦ find-IsDict k v d rest (rw other at h)
]

-- What is there, or else the default.
abbrev pub or_default : Option Value → Scalar → Option Value
or_default none s = some (scalar s)
or_default (some v) s = some v

scalar-fills :
    (p : List ℕ) (t : Scalar) (o r : Option Value) (s : Scalar)
    → Merged (scalar t) o r
    → follow (some (scalar t)) p ≡ some (scalar s)
    → follow r p ≡ or_default (follow o p) s
unfolding follow
scalar-fills [] t none r s h e = ap (λ o. follow o []) h ∙ e
scalar-fills [] t (some u) r s h e = ap (λ o. follow o []) h
scalar-fills (k ∷ p) t o r s h e = cc e

not_in_nil :
    (p : List ℕ) (v : Entries) (s : Scalar)
    → follow (some (node v)) p ≡ some (scalar s)
    → follow (some (node nil)) p ≡ none
unfolding follow find
not_in_nil [] v s e = cc e
not_in_nil (k ∷ p) v s e = refl

module _ (p : List ℕ) (s : Scalar) where
  node-fills :
      (v : Entries) (o r : Option Value)
      → ((dst n : Entries)
          → merge v dst ≡ ok n
          → follow (some (node n)) p ≡ or_default (follow (some (node dst)) p) s)
      → Merged (node v) o r
      → follow (some (node v)) p ≡ some (scalar s)
      → follow r p ≡ or_default (follow o p) s
  unfolding merge_node follow
  node-fills v none r later (u, first, there) e =
      bind-ok (merge v nil) (λ n. ok (node n)) u first
        (λ n merged made.
          ap (λ o. follow o p) {y = some (node n)} (cc (there, made))
          ∙ later nil n merged
          ∙ ap (λ o. or_default o s) (not_in_nil p v s e))
  node-fills v (some (node d)) r later (u, first, there) e =
      bind-ok (merge v d) (λ n. ok (node n)) u first
        (λ n merged made.
          ap (λ o. follow o p) {y = some (node n)} (cc (there, made)) ∙ later d n merged)
  node-fills nil (some (scalar t)) r later h e = cc (not_in_nil p nil s e, e)
  node-fills (entry k w v) (some (scalar t)) r later (u, first, there) e = cc first

merge-fills :
    (p : List ℕ) (src dst m : Entries) (s : Scalar)
    → IsDict src
    → merge src dst ≡ ok m
    → follow (some (node src)) p ≡ some (scalar s)
    → follow (some (node m)) p ≡ or_default (follow (some (node dst)) p) s
unfolding follow
merge-fills [] src dst m s dict e h = cc h
merge-fills (k ∷ p) src dst m s dict e h = go (find k src) refl (λ v. merge-fills p v) h
  where
    go :
        (o : Option Value)
        → find k src ≡ o
        → ((v dst n : Entries) (s : Scalar)
            → IsDict v
            → merge v dst ≡ ok n
            → follow (some (node v)) p ≡ some (scalar s)
            → follow (some (node n)) p ≡ or_default (follow (some (node dst)) p) s)
        → follow o p ≡ some (scalar s)
        → follow (find k m) p ≡ or_default (follow (find k dst) p) s
    go none f later g = cc g
    go (some (scalar t)) f later g =
        scalar-fills p t (find k dst) (find k m) s (merge-Merged k (scalar t) src dst m dict e f) g
    go (some (node v)) f later g =
        node-fills p s v (find k dst) (find k m)
          (λ d n merged. later v d n s (find-IsDict k v src dict f) merged g)
          (merge-Merged k (node v) src dst m dict e f) g

default_can-IsDict : IsDict default_can
unfolding default_can find
default_can-IsDict = (
  refl,
  (tt, (refl, (tt, (refl, (tt, (refl, (tt, (refl, (tt, (refl, (tt, (refl, (tt, tt))))))))))))),
)

default_config-IsDict : IsDict default_config
unfolding default_config find
default_config-IsDict = (
  refl,
  (
    tt,
    (
      refl,
      (
        tt,
        (
          refl,
          (
            tt,
            (
              refl,
              (tt, (refl, (tt, (refl, (tt, (refl, (tt, (refl, (default_can-IsDict, tt))))))))),
            ),
          ),
        ),
      ),
    ),
  ),
)

-- Where a file gives a configuration at all, every setting of the defaults, at
-- any depth, is in it, with what the file says where the file has something at that path of keys, and
-- with the default where it has nothing.
pub load_config-fills :
    (cfg m : Entries) (p : List ℕ) (s : Scalar)
    → load_config (ok (node cfg)) ≡ ok m
    → follow (some (node default_config)) p ≡ some (scalar s)
    → follow (some (node m)) p ≡ or_default (follow (some (node cfg)) p) s
unfolding load_config
load_config-fills cfg m p s e h = merge-fills p default_config cfg m s default_config-IsDict e h

pub follow-nil : (o : Option Value) → follow o [] ≡ o
unfolding follow
follow-nil none = refl
follow-nil (some v) = refl

default_port : follow (some (node default_config)) (peer_port ∷ []) ≡ some (scalar (integer 50_000))
unfolding follow find default_config
default_port = refl

-- A client never dials the value of `port`: without `peer_port` of its own, it dials 50000.
client_port-default :
    (cfg m : Entries)
    → load_config (ok (node cfg)) ≡ ok m
    → find peer_port cfg ≡ none
    → client_port m ≡ scalar (integer 50_000)
unfolding client_port get_or follow value_or
client_port-default cfg m e absent =
    let filled = load_config-fills cfg m (peer_port ∷ []) (integer 50_000) e default_port in
    ap (value_or _) (
      sym (follow-nil (find peer_port m))
      ∙ filled
      ∙ ap (λ o. or_default o (integer 50_000)) (follow-nil (find peer_port cfg) ∙ absent))
