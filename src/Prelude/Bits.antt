-- ===== src/Prelude/Bits.antt =====
-- Masks of ones as remainders: `a & 0x1FFFFFFF` is `a % 2 ^ 29`.
use Prim.Native.Nat.{
  ℕ, zero, suc, ◌+◌, ◌*◌, ◌/◌, ◌%◌, ◌^◌, ◌≤◌, ◌<◌, min, bit_and, digits, bit_and-bitwise,
}
use mathlib.Core.Path.{◌≡◌, sym, ap, ◌∙◌, ◌≡⟨◌⟩◌, ◌∎}
use native.Mathlib.Nat.{add-mul-mod_self_left, mod-eq_of_lt, mod-lt, div-add-mod}
use native.Mathlib.Omega.{arith}

ones : ℕ → ℕ
ones zero = 0
ones (suc k) = ones k * 2 + 1

two_to : ℕ → ℕ
two_to zero = 1
two_to (suc k) = 2 * two_to k

two_to_pos : (k : ℕ) → 0 < two_to k
unfolding two_to
two_to_pos zero = omega arith
two_to_pos (suc k) = omega (arith, two_to_pos k)

-- The remainder by an even number, from that of the half.
mod_double : (a p : ℕ) → 0 < p → a % (2 * p) ≡ a / 2 % p * 2 + a % 2
mod_double a p pos =
    a % (2 * p)
    ≡⟨ ap (λ t. t % (2 * p)) regroup ⟩ (a / 2 % p * 2 + a % 2 + 2 * p * (a / 2 / p)) % (2 * p)
    ≡⟨ add-mul-mod_self_left _ (2 * p) (a / 2 / p) ⟩ (a / 2 % p * 2 + a % 2) % (2 * p)
    ≡⟨ mod-eq_of_lt (omega (arith, mod-lt (a / 2) pos)) ⟩ a / 2 % p * 2 + a % 2 ∎
  where
    regroup : a ≡ a / 2 % p * 2 + a % 2 + 2 * p * (a / 2 / p)
    regroup = omega (arith, div-add-mod (a / 2) p)

-- Masking digit by digit, on any fuel that covers the number.
masked : ℕ → ℕ → ℕ → ℕ
masked fuel k a = digits (λ b. 0) min fuel a (ones k)

masked_lem : (fuel k a : ℕ) → a ≤ fuel → masked fuel k a ≡ a % two_to k
unfolding masked ones two_to
masked_lem zero k zero h = sym (mod-eq_of_lt (two_to_pos k))
masked_lem zero k (suc a) h = absurd (omega arith)
masked_lem (suc fuel) k zero h = sym (mod-eq_of_lt (two_to_pos k))
masked_lem (suc fuel) zero (suc a) h = omega (arith, masked_lem fuel 0 (suc a / 2) (omega arith))
masked_lem (suc fuel) (suc k) (suc a) h = omega (
  arith,
  ap (λ t. digits (λ b. 0) min fuel (suc a / 2) t) halved,
  masked_lem fuel k (suc a / 2) (omega arith),
  mod_double (suc a) (two_to k) (two_to_pos k),
)
  where
    halved : (ones k * 2 + 1) / 2 ≡ ones k
    halved = omega arith

-- The 29 bits of an extended CAN identifier.
pub bit_and_29 : (a : ℕ) → bit_and a 0x1FFFFFFF ≡ a % 2 ^ 29
unfolding masked ones two_to
bit_and_29 a = bit_and-bitwise a 0x1FFFFFFF ∙ masked_lem a 29 a (omega arith)
