-- ===== src/Interactive/Menu/Nodes.antt =====
-- `add_node`, `choose_node` and `send_nmt` of canopen-interactive/co.py.
use canopen_tools.Prelude.{ℕ, ◌-◌, Option, none, some, List, [], ◌∷◌, map, length}
use canopen_tools.Outcome.{Result, ok, raise}
use canopen_tools.Interactive.Text.{Text, codes, ℤ, int}
use canopen_tools.Interactive.Dict.{set}
use canopen_tools.Interactive.Session.{ask, index, prompt, choose}
use canopen_tools.Interactive.Menu.{
  same_int, Menu, pure, reading, lift, reads, acting, attempt, ◌>>=◌, ◌>>◌,
}
use canopen_tools.Interactive.Menu.Library.{add_node, send_command, Canopen, Tool, perform, item}
pub mod Keys
pub mod Choice

-- The lines `Node ID {node_id} - {nodes_meta[node_id]}`.
unfoldable pub listed : List ℤ → List (ℤ × Text) → Result (Unit {0})
listed [] meta = ok tt
listed (k ∷ ks) meta = elim (item k meta) [ raise e ↦ raise e | ok name ↦ listed ks meta ]

-- `nodes[node_ids[choice - 1]]`
unfoldable pub node_at : {N : Type 0} → List ℤ → List (ℤ × N) → ℕ → Result N
unfolding item
node_at ids nodes c = elim (index ids (c - 1)) [ raise e ↦ raise e | ok k ↦ item k nodes ]

module _ {W N R : Type 0} where
  -- `nodes[node_id] = node` and `nodes_meta[node_id] = os.path.basename(eds)`
  unfoldable pub stored : ℤ → N → Text → Tool W N R → Result (Unit {0}) × Tool W N R
  stored node_id node name t = (
    ok tt,
    record t {
      nodes = set same_int node_id node t.nodes;
      nodes_meta = set same_int node_id name t.nodes_meta;
    },
  )

  unfoldable pub choose_among : List (ℤ × N) → Menu (Tool W N R) (Option N)
  unfolding listed node_at item
  choose_among [] = pure none
  choose_among (n ∷ nodes) = do
    meta ← reads (λ t. t.nodes_meta)
    let ids = map (λ p. p.0) (n ∷ nodes)
    lift (listed ids meta)
    node ← reading (prompt (length ids) (node_at ids (n ∷ nodes)))
    pure (some node)

  unfoldable pub choose_node : Menu (Tool W N R) (Option N)
  unfolding choose_among
  choose_node = do nodes ← reads (λ t. t.nodes); choose_among nodes

-- `nmt_cmds`
abbrev pub nmt_cmds : List (Text × ℕ)
nmt_cmds =
    (codes "start", 0x01)
    ∷ (codes "stop", 0x02)
    ∷ (codes "pre-op", 0x80)
    ∷ (codes "reset node", 0x81)
    ∷ (codes "reset comm", 0x82)
    ∷ []

module _ {W N R : Type 0} (lib : Canopen W N R) where
  -- `basename` is `os.path.basename`.
  unfoldable pub add_node_menu : (Text → Text) → List Text → Menu (Tool W N R) (Unit {0})
  unfolding stored
  add_node_menu basename eds_files = do
    s ← reading ask
    node_id ← lift (int s)
    eds ← reading (choose eds_files)
    node ← lift (lib.remote_node node_id eds)
    perform lib (add_node node)
    acting (stored node_id node (basename eds))

  unfoldable pub send_nmt_to : Option N → Menu (Tool W N R) (Unit {0})
  send_nmt_to none = pure tt
  send_nmt_to (some node) = do
    cmd ← reading (choose nmt_cmds)
    attempt (perform lib (send_command node cmd.1))
    pure tt

  unfoldable pub send_nmt : Menu (Tool W N R) (Unit {0})
  send_nmt = do node ← choose_node; send_nmt_to node
