-- ===== src/Bridge/Config/Loads.antt =====
-- When `load_config` of can-tcp-bridge/can-tcp-bridge-server/can_tcp_bridge.py gives a configuration,
-- and what is in it.
use canopen_tools.Prelude.{ℕ, false, ◌≡◌, refl, sym, subst, ◌==◌, Option, none, some, List}
use canopen_tools.Outcome.{Result, ok, raise, attribute_error, ◌>>=◌}
use canopen_tools.Bridge.Config.{
  Scalar, Value, scalar, node, Entries, nil, entry, find, put, set_default, merge_node, merge,
  default_can, default_config, load_config, can,
}
use canopen_tools.Bridge.Config.Kept.{follow}
use canopen_tools.Bridge.Config.Fills.{or_default, set_default-find_other, load_config-fills}

-- No value is a dictionary.
abbrev IsFlat : Entries → Type 0
IsFlat nil = Unit
IsFlat (entry k (scalar s) d) = IsFlat d
IsFlat (entry k (node v) d) = ⊥

-- Defaults with one dictionary, which is flat and not empty, at the key `k`.
abbrev HasOneNode : ℕ → Entries → Type 0
HasOneNode k nil = ⊥
HasOneNode k (entry j (scalar s) d) = ((k == j) ≡ false) × HasOneNode k d
HasOneNode k (entry j (node nil) d) = ⊥
HasOneNode k (entry j (node (entry i v e)) d) = (j ≡ k) × (IsFlat (entry i v e) × IsFlat d)

merge-flat : (src dst : Entries) → IsFlat src → (m : Entries) × (merge src dst ≡ ok m)
unfolding merge
merge-flat nil dst flat = (dst, refl)
merge-flat (entry k (scalar s) src) dst flat =
    merge-flat src (set_default k (scalar s) dst (find k dst)) flat
merge-flat (entry k (node v) src) dst flat = absurd flat

-- The outcome of a merge, given what stands at the key of the dictionary.
abbrev Merges : Option Value → Result Entries → Type 0
Merges (some (scalar s)) r = r ≡ raise attribute_error
Merges _ r = (m : Entries) × (r ≡ ok m)

merge_node-Merges :
    (i : ℕ) (v : Value) (d src : Entries) (o : Option Value) (next : Value → Entries)
    → IsFlat (entry i v d)
    → IsFlat src
    → Merges o (merge_node (merge (entry i v d)) (entry i v d) o >>= λ u. merge src (next u))
unfolding merge_node
merge_node-Merges i v d src none next flat rest =
    let (m, e) = merge-flat (entry i v d) nil flat in rw e (merge-flat src (next (node m)) rest)
merge_node-Merges i v d src (some (node w)) next flat rest =
    let (m, e) = merge-flat (entry i v d) w flat in rw e (merge-flat src (next (node m)) rest)
merge_node-Merges i v d src (some (scalar s)) next flat rest = refl

merge-Merges : (k : ℕ) (src dst : Entries) → HasOneNode k src → Merges (find k dst) (merge src dst)
unfolding merge
merge-Merges k nil dst h = absurd h
merge-Merges k (entry j (scalar s) src) dst (other, h) =
    subst (λ o. Merges o (merge src (set_default j (scalar s) dst (find j dst))))
      (set_default-find_other k j (scalar s) dst (find j dst) other)
      (merge-Merges k src (set_default j (scalar s) dst (find j dst)) h)
merge-Merges k (entry j (node nil) src) dst h = absurd h
merge-Merges k (entry j (node (entry i v d)) src) dst (e, (flat, rest)) =
    rw (sym e) (merge_node-Merges i v d src (find j dst) (λ u. put j u dst) flat rest)

default_config-HasOneNode : HasOneNode can default_config
unfolding default_config default_can
default_config-HasOneNode = (refl, (refl, (refl, (refl, (refl, (refl, (refl, (refl, (tt, tt)))))))))

-- What loading a dictionary comes to, given what it has at the key `can`: a configuration with every
-- setting of the defaults at any depth, or AttributeError.
abbrev pub Loads : Entries → Option Value → Result Entries → Type 0
Loads cfg (some (scalar s)) r = r ≡ raise attribute_error
Loads cfg _ r =
    (m : Entries) × (r ≡ ok m)
    × ((p : List ℕ) (s : Scalar)
        → follow (some (node default_config)) p ≡ some (scalar s)
        → follow (some (node m)) p ≡ or_default (follow (some (node cfg)) p) s)

filled :
    (cfg : Entries)
    → ((m : Entries) × (load_config (ok (node cfg)) ≡ ok m))
    → Loads cfg none (load_config (ok (node cfg)))
filled cfg (m, e) = (m, e, λ p s. load_config-fills cfg m p s e)

-- Whatever dictionary the file holds: if it has a dictionary at the key `can`, or nothing, it is
-- loaded, and every setting of the defaults, at any depth, is in the configuration, with what the
-- file says where the file has something at that path of keys, and with the default where it has
-- nothing; if it has any other value at `can`, `load_config` raises AttributeError.
pub load_config-Loads : (cfg : Entries) → Loads cfg (find can cfg) (load_config (ok (node cfg)))
load_config-Loads cfg = go (find can cfg) merged
  where
    merged : Merges (find can cfg) (load_config (ok (node cfg)))
    merged = unfold load_config in merge-Merges can default_config cfg default_config-HasOneNode

    go :
        (o : Option Value)
        → Merges o (load_config (ok (node cfg)))
        → Loads cfg o (load_config (ok (node cfg)))
    go none h = filled cfg h
    go (some (node d)) h = filled cfg h
    go (some (scalar s)) h = h
