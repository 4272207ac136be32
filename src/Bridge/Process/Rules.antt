-- ===== src/Bridge/Process/Rules.antt =====
-- Which calls the parts of can-tcp-bridge/can-tcp-bridge-server/can_tcp_bridge.py make, one behind
-- the other.
use canopen_tools.Prelude.{
  ◌≡◌, refl, sym, ap, subst, ◌∙◌, List, [], ◌∷◌, ◌++◌, map, append_assoc, append-nil,
}
use canopen_tools.Outcome.{Result, ok, raise}
use canopen_tools.Bridge.Process.{Call, Log, M, continue, pure, lift, ◌>>=◌, ◌>>◌}

abbrev pub calls : Log → List Call
calls l = map (λ p. p.0) l

-- An action that returns, behind calls that it makes in any case.
abbrev pub Adds : M (Unit {0}) → List Call → Type 0
Adds m cs = (l : Log) → ((m l).0 ≡ ok tt) × (calls (m l).1 ≡ calls l ++ cs)

pub calls-append : (l k : Log) → calls (l ++ k) ≡ calls l ++ calls k
calls-append [] k = refl
calls-append (p ∷ l) k = ap (λ cs. p.0 ∷ cs) (calls-append l k)

pub then-Adds :
    (m k : M (Unit {0})) (cs ds : List Call) → Adds m cs → Adds k ds → Adds (m >> k) (cs ++ ds)
unfolding ◌>>=◌
then-Adds m k cs ds h g l = go (m l) (h l)
  where
    go :
        (p : Result (Unit {0}) × Log)
        → (p.0 ≡ ok tt) × (calls p.1 ≡ calls l ++ cs)
        → ((continue (λ u. k) p).0 ≡ ok tt)
          × (calls (continue (λ u. k) p).1 ≡ calls l ++ (cs ++ ds))
    go (ok u, j) (e, f) = ((g j).0, (g j).1 ∙ ap (λ x. x ++ ds) f ∙ append_assoc (calls l) cs ds)
    go (raise x, j) (e, f) = absurd (cc e)

pub pure-Adds : Adds (pure tt) []
pure-Adds l = (refl, sym (append-nil (calls l)))

pub lift-Adds :
    {A : Type 0} (r : Result A) (f : A → M (Unit {0})) (a : A) (cs : List Call)
    → r ≡ ok a
    → Adds (f a) cs
    → Adds (lift r >>= f) cs
unfolding ◌>>=◌
lift-Adds r f a cs e h = subst (λ q. Adds (lift q >>= f) cs) (sym e) h
