-- ===== src/Bridge/Config/Asked.antt =====
-- What `load_config` and `bring_up_interface` of can-tcp-bridge/can-tcp-bridge-server/can_tcp_bridge.py
-- do together.
use canopen_tools.Prelude.{ℕ, Bool, false, ◌≡◌, refl, sym, ap, ◌∙◌, Option, none, some, [], ◌∷◌}
use canopen_tools.Outcome.{Result, ok, raise}
use canopen_tools.Bridge.Process.{CanConfig, Env, Log, bring_up_interface, M, lift, ◌>>=◌}
use canopen_tools.Bridge.Config.{
  Scalar, text, flag, Value, scalar, node, Entries, find, get_or, value_or, can, iface, bringup,
  default_can, default_config, load_config,
}
use canopen_tools.Bridge.Config.Kept.{follow}
use canopen_tools.Bridge.Config.Fills.{or_default, follow-nil, load_config-fills}
use canopen_tools.Bridge.Config.Section.{Casts, section, truthy, with_iface, can_config}

-- A setting of the section `can`, in a file.
abbrev pub said : ℕ → Entries → Option Value
said k cfg = follow (some (node cfg)) (can ∷ k ∷ [])

-- Whatever the commands answer, none is run.
abbrev pub StaysDown : Option CanConfig → Type 0
StaysDown none = Unit
StaysDown (some bus) =
    (env : Env) (is_root : Bool) (l : Log) → (bring_up_interface env is_root bus l).1 ≡ l

section-follow :
    (k : ℕ) (o : Option Value) (c : Entries) → section o ≡ ok c → follow o (k ∷ []) ≡ find k c
unfolding section follow
section-follow k none c e = cc e
section-follow k (some (scalar s)) c e = cc e
section-follow k (some (node d)) c e = follow-nil (find k d) ∙ cc e

-- A setting of the section of a loaded configuration.
find-loaded :
    (cfg m c : Entries) (k : ℕ) (s : Scalar)
    → load_config (ok (node cfg)) ≡ ok m
    → section (find can m) ≡ ok c
    → said k default_config ≡ some (scalar s)
    → find k c ≡ or_default (said k cfg) s
find-loaded cfg m c k s loaded e default =
    sym (section-follow k (find can m) c e)
    ∙ unfold follow in load_config-fills cfg m (can ∷ k ∷ []) s loaded default

module _ (casts : Casts) where
  -- Whether a file asks for the interface to be brought up.
  abbrev pub asks : Option Value → Bool
  asks none = false
  asks (some v) = truthy casts v

  bringup_of : Option CanConfig → Bool
  bringup_of none = false
  bringup_of (some bus) = bus.bringup

  config-bringup :
      (c : Entries) (o : Option Value) (bus : CanConfig)
      → with_iface casts c o ≡ some bus
      → bus.bringup ≡ truthy casts (get_or bringup (scalar (flag false)) c)
  unfolding with_iface bringup_of
  config-bringup c (some (scalar (text name))) bus e = ap bringup_of (sym e)
  config-bringup c o bus e = cc e

  asks-truthy :
      (o r : Option Value)
      → r ≡ or_default o (flag false)
      → truthy casts (value_or (scalar (flag false)) r) ≡ asks o
  unfolding truthy value_or
  asks-truthy none r e = rw e refl
  asks-truthy (some v) r e = rw e refl

  -- The interface is brought up only by a file that asks for it: what a loaded configuration has for
  -- `bringup` is what the file has there, as a truth value, and false where the file has nothing.
  loaded-bringup :
      (cfg m c : Entries) (bus : CanConfig)
      → load_config (ok (node cfg)) ≡ ok m
      → section (find can m) ≡ ok c
      → can_config casts c ≡ some bus
      → bus.bringup ≡ asks (said bringup cfg)
  unfolding can_config get_or
  loaded-bringup cfg m c bus loaded e made =
      config-bringup c (find iface c) bus made
      ∙ asks-truthy (said bringup cfg) (find bringup c) (
          find-loaded cfg m c bringup (flag false) loaded e
            (unfold follow find default_config default_can in refl))

lift-keeps :
    {A B : Type 0} (r : Result A) (f : A → M B) (l : Log)
    → ((a : A) → (f a l).1 ≡ l)
    → ((lift r >>= f) l).1 ≡ l
unfolding ◌>>=◌
lift-keeps (ok a) f l h = h a
lift-keeps (raise e) f l h = refl

bring_up_interface-idle :
    (env : Env) (is_root : Bool) (bus : CanConfig) (l : Log)
    → bus.bringup ≡ false
    → (bring_up_interface env is_root bus l).1 ≡ l
unfolding bring_up_interface
bring_up_interface-idle env is_root bus l off =
    lift-keeps bus.bitrate _ l (λ b. lift-keeps bus.data_bitrate _ l (λ d. rw off refl))

section_reached :
    (k : ℕ) (o : Option Value) (v : Value)
    → follow o (k ∷ []) ≡ some v
    → (c : Entries) × (section o ≡ ok c)
unfolding section follow
section_reached k none v e = cc e
section_reached k (some (scalar s)) v e = cc e
section_reached k (some (node d)) v e = (d, refl)

or_default_given : (o : Option Value) (s : Scalar) → (v : Value) × (or_default o s ≡ some v)
or_default_given none s = (scalar s, refl)
or_default_given (some v) s = (v, refl)

-- A loaded configuration has a section `can`, so that `self.cfg["can"]` raises nothing.
loaded-section :
    (cfg m : Entries)
    → load_config (ok (node cfg)) ≡ ok m
    → (c : Entries) × (section (find can m) ≡ ok c)
loaded-section cfg m loaded =
    let (v, e) = or_default_given (said bringup cfg) (flag false) in
    section_reached bringup (find can m) v (
      unfold follow in
      load_config-fills cfg m (can ∷ bringup ∷ []) (flag false) loaded
        (unfold follow find default_config default_can in refl)
      ∙ e)

-- A dictionary that is loaded has a section `can`, whatever the file says. If the file has nothing at
-- `bringup` of its section `can`, or a value there that is false, and the section of the loaded
-- configuration names its interface by a text, `bring_up_interface` makes no call, for root or not.
pub asked_only :
    (casts : Casts) (cfg m : Entries)
    → load_config (ok (node cfg)) ≡ ok m
    → asks casts (said bringup cfg) ≡ false
    → (c : Entries) × (section (find can m) ≡ ok c) × StaysDown (can_config casts c)
asked_only casts cfg m loaded off =
    let (c, made) = loaded-section cfg m loaded in
    (c, made, stays (can_config casts c) (λ bus. loaded-bringup casts cfg m c bus loaded made))
  where
    stays :
        (o : Option CanConfig)
        → ((bus : CanConfig) → o ≡ some bus → bus.bringup ≡ asks casts (said bringup cfg))
        → StaysDown o
    stays none h = tt
    stays (some bus) h =
        λ env is_root l. bring_up_interface-idle env is_root bus l (h bus refl ∙ off)
