-- ===== src/Base/Int.antt =====
-- Signed integers over the native numbers, and the int64 arithmetic of the program.
use Prim.Native.Nat.{ℕ, zero, suc, ◌-◌, ◌^◌, ◌<◌}
use mathlib.Core.Path.{◌≡◌}
use mathlib.Core.Logic.{◌↔◌}
use mathlib.Core.Bool.{Bool, true, false}
use native.Mathlib.Omega.{arith}
use rosetta_ergo.Base.Booleans.{ltb, eq_ℕ, if◌then◌else◌}

-- `negsuc n` is -(n + 1).
pub data ℤ : Type 0 where
  pos : ℕ → ℤ
  negsuc : ℕ → ℤ

abbrev pub neg : ℤ → ℤ
neg (pos zero) = pos 0
neg (pos (suc n)) = negsuc n
neg (negsuc n) = pos (suc n)

abbrev pub eq_ℤ : ℤ → ℤ → Bool
eq_ℤ (pos a) (pos b) = eq_ℕ a b
eq_ℤ (negsuc a) (negsuc b) = eq_ℕ a b
eq_ℤ _ _ = false

abbrev pub ltb_ℤ : ℤ → ℤ → Bool
ltb_ℤ (pos a) (pos b) = ltb a b
ltb_ℤ (pos a) (negsuc b) = false
ltb_ℤ (negsuc a) (pos b) = true
ltb_ℤ (negsuc a) (negsuc b) = ltb b a

pub eq_ℤ_iff : (a b : ℤ) → (eq_ℤ a b ≡ true) ↔ (a ≡ b)
eq_ℤ_iff (pos a) (pos b) = ground arith
eq_ℤ_iff (pos a) (negsuc b) = ground arith
eq_ℤ_iff (negsuc a) (pos b) = ground arith
eq_ℤ_iff (negsuc a) (negsuc b) = ground arith

-- `z + 1` and `z - 1` in int64, with the wrap-around.
abbrev pub max_int64 : ℕ
max_int64 = 2 ^ 63 - 1

abbrev pub inc64 : ℤ → ℤ
inc64 (pos n) = if eq_ℕ n max_int64 then negsuc max_int64 else pos (suc n)
inc64 (negsuc zero) = pos 0
inc64 (negsuc (suc n)) = negsuc n

abbrev pub dec64 : ℤ → ℤ
dec64 (pos zero) = negsuc 0
dec64 (pos (suc n)) = pos n
dec64 (negsuc n) = if eq_ℕ n max_int64 then pos max_int64 else negsuc (suc n)

-- The values that a w-bit signed integer takes.
abbrev pub InInt64 : ℤ → Type 0
InInt64 (pos n) = n < 2 ^ 63
InInt64 (negsuc n) = n < 2 ^ 63

-- `big.Int.Sign`.
pub data Sign : Type 0 where
  minus null plus : Sign

abbrev pub sign : ℤ → Sign
sign (pos zero) = null
sign (pos (suc n)) = plus
sign (negsuc n) = minus
