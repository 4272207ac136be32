-- ===== src/Firmware/Protocol/Rules.antt =====
-- How actions move through the stages of the protocol: one rule for each way to combine actions.
use canopen_tools.Prelude.{ℕ, ◌≡◌, refl, ap, ◌∙◌, inl, inr, Bool-cases, Option, none, some}
use canopen_tools.Outcome.{Result, ok, raise, is_exception}
use canopen_tools.Firmware.Device.{
  Call, Env, Log, Run, returned, raised, out_of_fuel, M, run_of, attempt, finally, after_try,
  after_close, closing, continue, ◌>>=◌, perform,
}
use canopen_tools.Firmware.Protocol.{
  Stage, idle, violation, advance, refused, next, run, run-append,
}

-- After an action: `P` of its value and the stage, or `E` of the stage where it raised.
abbrev pub To : {A : Type 0} → (Stage → Type 0) → (A → Stage → Type 0) → Run A → Stage → Type 0
To E P (returned a) t = P a t
To E P (raised e) t = E t
To E P out_of_fuel t = E t

-- From a log in stage `s`, the action ends as `Q` says.
abbrev pub Leads : {A : Type 0} → Stage → (Run A → Stage → Type 0) → M A → Type 0
Leads s Q m = (l : Log) → run idle l ≡ s → Q (m l).0 (run idle (m l).1)

module _ {A B : Type 0} where
  pub Leads-bind :
      (s : Stage) (E : Stage → Type 0) (P : A → Stage → Type 0) (Q : B → Stage → Type 0) (m : M A)
      (f : A → M B)
      → Leads s (To E P) m
      → ((a : A) (t : Stage) → P a t → Leads t (To E Q) (f a))
      → Leads s (To E Q) (m >>= f)
  unfolding ◌>>=◌
  Leads-bind s E P Q m f hm hf l h = go (m l).0 (m l).1 (hm l h)
    where
      go :
          (r : Run A) (k : Log)
          → To E P r (run idle k)
          → To E Q (continue f r k).0 (run idle (continue f r k).1)
      go (returned a) k p = hf a (run idle k) p k refl
      go (raised e) k p = p
      go out_of_fuel k p = p

module _ {A : Type 0} where
  pub Leads-weaken :
      (s : Stage) (E F : Stage → Type 0) (P Q : A → Stage → Type 0) (m : M A)
      → ((t : Stage) → E t → F t)
      → ((a : A) (t : Stage) → P a t → Q a t)
      → Leads s (To E P) m
      → Leads s (To F Q) m
  Leads-weaken s E F P Q m hE hP hm l h = go (m l).0 (run idle (m l).1) (hm l h)
    where
      go : (r : Run A) (t : Stage) → To E P r t → To F Q r t
      go (returned a) t p = hP a t p
      go (raised e) t p = hE t p
      go out_of_fuel t p = hE t p

module _ (env : Env) (c : Call) (s : Stage) where
  run-perform :
      (l : Log) → run idle l ≡ s → run idle (perform env c l).1 ≡ next s (c, env.reply l c)
  unfolding perform
  run-perform l h = run-append idle l _ ∙ ap (λ (t : Stage). next t (c, env.reply l c)) h

  pub Leads-perform :
      (E : Stage → Type 0) (P : ℕ → Stage → Type 0)
      → ((n : ℕ) → P n (advance s c n))
      → E (refused s (advance s c 0))
      → Leads s (To E P) (perform env c)
  Leads-perform E P good bad l h = rw (run-perform l h) (unfold perform in go (env.reply l c))
    where
      go : (r : Result ℕ) → To E P (run_of r) (next s (c, r))
      go (ok n) = good n
      go (raise e) = bad

-- After a `try` that lets an action fail: its own end, or what holds where it raised.
abbrev pub Tried :
    {A : Type 0} → (Stage → Type 0) → (A → Stage → Type 0) → Option A → Stage → Type 0
Tried E P (some a) t = P a t
Tried E P none t = E t

module _ {A : Type 0} where
  pub Leads-attempt :
      (s : Stage) (E : Stage → Type 0) (P : A → Stage → Type 0) (m : M A)
      → Leads s (To E P) m
      → Leads s (To E (Tried E P)) (attempt m)
  unfolding attempt
  Leads-attempt s E P m hm l h = go (m l).0 (m l).1 (hm l h)
    where
      go :
          (r : Run A) (k : Log)
          → To E P r (run idle k)
          → To E (Tried E P) (after_try r k).0 (run idle (after_try r k).1)
      go (returned a) k p = p
      go (raised e) k p = elim (Bool-cases (is_exception e)) [
        | inl caught ↦ rw caught p
        | inr passed ↦ rw passed p
      ]
      go out_of_fuel k p = p

  -- `E` holds where the body raised, and `F` where it or the closing call did.
  pub Leads-finally :
      (env : Env) (c : Call) (s : Stage) (E F : Stage → Type 0) (P Q : A → Stage → Type 0) (m : M A)
      → Leads s (To E P) m
      → ((a : A) (t : Stage) (n : ℕ) → P a t → Q a (advance t c n))
      → ((a : A) (t : Stage) → P a t → F (refused t (advance t c 0)))
      → ((t : Stage) (n : ℕ) → E t → F (advance t c n))
      → ((t : Stage) → E t → F (refused t (advance t c 0)))
      → ((t : Stage) → E t → F t)
      → Leads s (To F Q) (finally m (perform env c))
  unfolding finally
  Leads-finally env c s E F P Q m hm good_closed good_failed bad_closed bad_failed cut l h =
      go (m l).0 (m l).1 (hm l h)
    where
      shut :
          (r : Run A) (k : Log)
          → ((n : ℕ) → To F Q r (advance (run idle k) c n))
          → F (refused (run idle k) (advance (run idle k) c 0))
          → To F Q
              (after_close r (perform env c k)).0
              (run idle (after_close r (perform env c k)).1)
      shut r k closed failed =
          after (perform env c k).0 (perform env c k).1
            (Leads-perform env c (run idle k) F (λ n t. To F Q r t) closed failed k refl)
        where
          after :
              (x : Run ℕ) (j : Log)
              → To F (λ n t. To F Q r t) x (run idle j)
              → To F Q (after_close r (x, j)).0 (run idle (after_close r (x, j)).1)
          after (returned n) j p = p
          after (raised e) j p = p
          after out_of_fuel j p = p

      go :
          (r : Run A) (k : Log)
          → To E P r (run idle k)
          → To F Q (closing (perform env c) r k).0 (run idle (closing (perform env c) r k).1)
      go (returned a) k p =
          shut (returned a) k (λ n. good_closed a (run idle k) n p) (good_failed a (run idle k) p)
      go (raised e) k p =
          shut (raised e) k (λ n. bad_closed (run idle k) n p) (bad_failed (run idle k) p)
      go out_of_fuel k p = cut (run idle k) p

-- A stage that is known after the first action.
pub Leads-then :
    {A B : Type 0} (s u : Stage) (E : Stage → Type 0) (Q : B → Stage → Type 0) (m : M A)
    (f : A → M B)
    → Leads s (To E (λ a t. t ≡ u)) m
    → ((a : A) → Leads u (To E Q) (f a))
    → Leads s (To E Q) (m >>= f)
Leads-then s u E Q m f hm hf = Leads-bind s E (λ a t. t ≡ u) Q m f hm (λ a t e l h. hf a l (h ∙ e))

pub refused_self : (s : Stage) → refused s s ≡ s
refused_self violation = refl
refused_self _ = refl

-- A call that leaves every stage as it is.
pub Leads-quiet :
    (env : Env) (c : Call) (s : Stage) (E : Stage → Type 0)
    → ((n : ℕ) → advance s c n ≡ s)
    → E s
    → Leads s (To E (λ n t. t ≡ s)) (perform env c)
Leads-quiet env c s E quiet safe =
    Leads-perform env c s E (λ n t. t ≡ s) quiet (rw (quiet 0, refused_self s) safe)

-- The same within a `try` that lets it fail.
pub Leads-try_quiet :
    (env : Env) (c : Call) (s : Stage)
    → ((n : ℕ) → advance s c n ≡ s)
    → Leads s (To (λ t. t ≡ s) (λ o t. t ≡ s)) (attempt (perform env c))
Leads-try_quiet env c s quiet =
    Leads-weaken s (λ t. t ≡ s) (λ t. t ≡ s) (Tried (λ t. t ≡ s) (λ n t. t ≡ s)) (λ o t. t ≡ s)
      (attempt (perform env c)) (λ t e. e) tried
      (Leads-attempt s (λ t. t ≡ s) (λ n t. t ≡ s) (perform env c)
        (Leads-quiet env c s (λ t. t ≡ s) quiet refl))
  where
    tried : (o : Option ℕ) (t : Stage) → Tried (λ t. t ≡ s) (λ n t. t ≡ s) o t → t ≡ s
    tried (some n) t e = e
    tried none t e = e
