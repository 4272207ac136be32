-- ===== src/Interactive/Menu/Nodes/Choice.antt =====
-- `choose_node` of canopen-interactive/co.py as a menu of the nodes themselves.
use mathlib.Core.Path.{fun_ext}
use canopen_tools.Prelude.{
  suc, ◌-◌, ◌≡◌, refl, sym, ap, ◌∙◌, Option, none, some, List, [], ◌∷◌, map, length,
}
use canopen_tools.Outcome.{ok}
use canopen_tools.Interactive.Text.{ℤ}
use canopen_tools.Interactive.Session.{
  Inputs, Answer, blocked, done, escaped, bind, index, prompt, choose,
}
use canopen_tools.Interactive.Menu.{pure, continue, ◌>>=◌}
use canopen_tools.Interactive.Menu.Library.{Tool}
use canopen_tools.Interactive.Menu.Nodes.{listed, node_at, choose_among, choose_node}
use canopen_tools.Interactive.Menu.Nodes.Keys.{keys, values, Distinct, node_at-values, listed-keys}

-- `nodes` and `nodes_meta` have the same keys, each once.
pub record IsTool {W N R : Type 0} (t : Tool W N R) : Type 0 where
  pub same_keys : keys t.nodes ≡ keys t.nodes_meta
  pub distinct : Distinct (keys t.nodes)

-- A menu of the nodes, with nothing asked if there is none.
unfoldable pub choose_of : {N : Type 0} → List N → Inputs → Answer (Option N)
choose_of [] is = done none is
choose_of (n ∷ ns) is = bind (choose (n ∷ ns) is) (λ a rest. done (some a) rest)

length-map : {A B : Type 0} (f : A → B) (xs : List A) → length (map f xs) ≡ length xs
length-map f [] = refl
length-map f (x ∷ xs) = ap suc (length-map f xs)

prompt_at-values :
    {N : Type 0} (d : List (ℤ × N)) (is : Inputs)
    → Distinct (keys d)
    → prompt (length (keys d)) (node_at (keys d) d) is ≡ choose (values d) is
unfolding choose
prompt_at-values d is h =
    ap (λ f. prompt (length (keys d)) f is) (fun_ext (λ c. node_at-values d c h))
    ∙ ap (λ n. prompt n (λ c. index (values d) (c - 1)) is)
        (length-map (λ p. p.0) d ∙ sym (length-map (λ p. p.1) d))

module _ {W N R : Type 0} where
  chosen :
      (a : Answer N) (t : Tool W N R)
      → continue (λ node. pure (some node)) a t ≡ (bind a (λ a rest. done (some a) rest), t)
  chosen blocked t = refl
  chosen (done a is) t = refl
  chosen (escaped e is) t = refl

  choose_among-values :
      (d : List (ℤ × N)) (t : Tool W N R) (is : Inputs)
      → Distinct (keys d)
      → listed (keys d) t.nodes_meta ≡ ok tt
      → choose_among d t is ≡ (choose_of (values d) is, t)
  unfolding choose_among choose_of ◌>>=◌
  choose_among-values [] t is h e = refl
  choose_among-values (n ∷ d) t is h e =
      rw (e, prompt_at-values (n ∷ d) is h) (chosen (choose (values (n ∷ d)) is) t)

  -- If `nodes` and `nodes_meta` have the same keys, each once, then `choose_node` is a menu of the
  -- nodes in their order: no lookup fails, and nothing changes.
  pub choose_node-values :
      (t : Tool W N R) (is : Inputs)
      → IsTool t
      → choose_node t is ≡ (choose_of (values t.nodes) is, t)
  unfolding choose_node ◌>>=◌
  choose_node-values t is h =
      choose_among-values t.nodes t is h.distinct
        (listed-keys (keys t.nodes) t.nodes_meta h.same_keys)
