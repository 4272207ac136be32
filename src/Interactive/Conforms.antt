-- ===== src/Interactive/Conforms.antt =====
-- `flash_firmware` of canopen-interactive/co.py in the flashing protocol.
use canopen_tools.Prelude.{ℕ, ◌≡◌, refl, ◌∙◌, ◌≤◌, Bool, true, false, Option, none, some, List, []}
use canopen_tools.Firmware.Device.{add_node, Env, Log, Run, returned, raised, out_of_fuel, attempt}
use canopen_tools.Firmware.Halts.{
  Ticks, Halts, Halts-bind, Halts-attempt, Halts-perform, update_steps-Halts,
}
use canopen_tools.Firmware.Protocol.{Stage, idle, confirmed, run}
use canopen_tools.Firmware.Protocol.Rules.{
  To, Leads, Tried, Leads-bind, Leads-then, Leads-quiet, Leads-attempt,
}
use canopen_tools.Firmware.Protocol.Transfer.{IsSafe}
use canopen_tools.Firmware.Protocol.Conforms.{Confirmed, update_steps-Leads}
use canopen_tools.Firmware.Flash.{update_steps}
use canopen_tools.Interactive.Flash.{
  Answers, Told, no_node, no_file, cancelled, completed, flash_error, flash_steps, tell, flash_node,
  flash_chosen, flash_menu,
}

module _ (env : Env) (content : List ℕ) where
  -- The two tools make the same calls from the first read on.
  flash_steps-update_steps :
      (fuel : ℕ) → flash_steps env fuel content ≡ update_steps env fuel content
  unfolding flash_steps update_steps
  flash_steps-update_steps fuel = refl

  -- What the two messages that follow the update say of the device.
  abbrev pub IsTruthful : Told → Stage → Type 0
  IsTruthful completed t = t ≡ confirmed content
  IsTruthful flash_error t = IsSafe content t
  IsTruthful _ t = ⊥

  flash_node-Leads :
      (fuel : ℕ) → Leads idle (To (IsSafe content) IsTruthful) (flash_node env fuel content)
  unfolding flash_node
  flash_node-Leads fuel =
      Leads-then idle idle (IsSafe content) IsTruthful _ _
        (Leads-quiet env add_node idle (IsSafe content) (λ n. refl) tt)
        λ n.
          Leads-bind idle (IsSafe content) (Tried (IsSafe content) (Confirmed env content))
            IsTruthful (attempt (flash_steps env fuel content)) _
            (Leads-attempt idle (IsSafe content) (Confirmed env content) _
              (rw (flash_steps-update_steps fuel) (update_steps-Leads env content fuel)))
            told
    where
      told :
          (o : Option (Unit {0})) (t : Stage)
          → Tried (IsSafe content) (Confirmed env content) o t
          → Leads t (To (IsSafe content) IsTruthful) (λ l. (returned (tell o), l))
      told (some u) t e l h = h ∙ e
      told none t e l h = rw h e

  pub IsTruthful-IsSafe :
      (r : Run Told) (t : Stage) → To (IsSafe content) IsTruthful r t → IsSafe content t
  IsTruthful-IsSafe (returned completed) t h = rw h refl
  IsTruthful-IsSafe (returned flash_error) t h = h
  IsTruthful-IsSafe (returned _) t h = absurd h
  IsTruthful-IsSafe (raised e) t h = h
  IsTruthful-IsSafe out_of_fuel t h = h

  pub flash_node-IsSafe : (fuel : ℕ) → IsSafe content (run idle (flash_node env fuel content []).1)
  flash_node-IsSafe fuel = IsTruthful-IsSafe _ _ (flash_node-Leads fuel [] refl)

  -- The end of the tool and the log, for the answers given.
  abbrev pub IsHonest : Option ℕ → Bool → Bool → Run Told × Log → Type 0
  IsHonest none is_file says_yes (r, l) = (r ≡ returned no_node) × (l ≡ [])
  IsHonest (some n) false says_yes (r, l) = (r ≡ returned no_file) × (l ≡ [])
  IsHonest (some n) true false (r, l) = (r ≡ returned cancelled) × (l ≡ [])
  IsHonest (some n) true true (r, l) = To (IsSafe content) IsTruthful r (run idle l)

  flash_chosen-IsHonest :
      (node : Option ℕ) (is_file says_yes : Bool) (fuel : ℕ)
      → IsHonest node is_file says_yes (flash_chosen env node is_file says_yes fuel content [])
  unfolding flash_chosen
  flash_chosen-IsHonest none is_file says_yes fuel = (refl, refl)
  flash_chosen-IsHonest (some n) false says_yes fuel = (refl, refl)
  flash_chosen-IsHonest (some n) true false fuel = (refl, refl)
  flash_chosen-IsHonest (some n) true true fuel = flash_node-Leads fuel [] refl

  -- Whatever the device, the files and the clock: when no node is chosen, the path is no file or
  -- the user does not confirm, the interactive tool says so and makes no call of the update.
  -- Otherwise it reports success or an error, or raises. When it reports success, the device holds
  -- the whole file and the program is confirmed; when it reports an error or raises, no call was
  -- out of the order of the protocol and nothing was started that is not the whole file.
  pub flash_menu-IsHonest :
      (answers : Answers) (fuel : ℕ)
      → IsHonest answers.node answers.is_file answers.says_yes
          (flash_menu env answers fuel content [])
  unfolding flash_menu
  flash_menu-IsHonest answers fuel =
      flash_chosen-IsHonest answers.node answers.is_file answers.says_yes fuel

pub flash_node-Halts :
    (env : Env) (ticks : Ticks env) (fuel : ℕ) (content : List ℕ)
    → 122 ≤ fuel
    → Halts (flash_node env fuel content)
unfolding flash_node
flash_node-Halts env ticks fuel content enough = Halts-bind _ _ (Halts-perform env add_node) λ n.
    Halts-bind _ _
      (Halts-attempt _ (
        rw (flash_steps-update_steps env content fuel)
          (update_steps-Halts env ticks fuel content enough)))
      (λ o l. tt)

-- The interactive update ends, from every log, for all answers: with fuel for 122 rounds in each
-- wait, a clock that never runs back, and a sleep that takes half a second at least.
pub flash_menu-Halts :
    (env : Env) (ticks : Ticks env) (answers : Answers) (fuel : ℕ) (content : List ℕ)
    → 122 ≤ fuel
    → Halts (flash_menu env answers fuel content)
unfolding flash_menu flash_chosen
flash_menu-Halts env ticks answers fuel content enough =
    asked answers.node answers.is_file answers.says_yes
  where
    asked :
        (node : Option ℕ) (is_file says_yes : Bool)
        → Halts (flash_chosen env node is_file says_yes fuel content)
    asked none is_file says_yes = λ l. tt
    asked (some n) false says_yes = λ l. tt
    asked (some n) true false = λ l. tt
    asked (some n) true true = flash_node-Halts env ticks fuel content enough
