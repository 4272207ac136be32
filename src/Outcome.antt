-- ===== src/Outcome.antt =====
-- Python calls that return a value or raise an exception.
use canopen_tools.Prelude.{Bool, true, false, ◌≡◌}

-- The exception classes that the handlers of the program tell apart. `connection_error` and
-- `timeout` are subclasses of `os_error`; `other` is any class that only an `except Exception`
-- clause catches.
pub data Exn : Type 0 where
  value_error struct_error type_error attribute_error key_error : Exn
  os_error connection_error timeout can_error keyboard_interrupt other : Exn

-- `except OSError`
abbrev pub is_os_error : Exn → Bool
is_os_error os_error = true
is_os_error connection_error = true
is_os_error timeout = true
is_os_error _ = false

-- `except Exception`: an interrupt is no `Exception`.
abbrev pub is_exception : Exn → Bool
is_exception keyboard_interrupt = false
is_exception _ = true

pub data Result {ℓ} (A : Type ℓ) : Type ℓ where
  ok : A → Result A
  raise : Exn → Result A

infixl 5 ◌>>=◌ ◌>>◌
abbrev pub ◌>>=◌ {ℓ κ} : {A : Type ℓ} {B : Type κ} → Result A → (A → Result B) → Result B
ok a >>= f = f a
raise e >>= f = raise e

abbrev pub ◌>>◌ {ℓ κ} : {A : Type ℓ} {B : Type κ} → Result A → Result B → Result B
m >> k = m >>= λ _. k

-- A result is a value, or an exception that `except Exception` catches.
unfoldable pub IsCaught : {A : Type 0} → Result A → Type 0
IsCaught (ok a) = Unit
IsCaught (raise e) = is_exception e ≡ true
