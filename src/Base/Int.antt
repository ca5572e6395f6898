-- ===== src/Base/Int.antt =====
-- `i64`: a signed number. `negsuc n` is -(n + 1).
use mcpstead.Base.Eq.{Eq, nat_eq, =?_iff, ◌=?◌}
use Prim.Native.Nat.{ℕ}
use mathlib.Core.Path.{◌≡◌}
use mathlib.Core.Logic.{◌↔◌}
use mathlib.Core.Bool.{Bool, true, false}
use native.Mathlib.Omega.{arith}

pub data ℤ : Type 0 where
  pos : ℕ → ℤ
  negsuc : ℕ → ℤ

abbrev pub int_beq : ℤ → ℤ → Bool
int_beq (pos a) (pos b) = a =? b
int_beq (negsuc a) (negsuc b) = a =? b
int_beq _ _ = false

pub int_iff : (a b : ℤ) → (int_beq a b ≡ true) ↔ (a ≡ b)
int_iff (pos a) (pos b) = ground (arith, =?_iff a b)
int_iff (negsuc a) (negsuc b) = ground (arith, =?_iff a b)
int_iff (pos a) (negsuc b) = ground arith
int_iff (negsuc a) (pos b) = ground arith

instance abbrev pub int_eq : Eq ℤ
int_eq = record { beq = int_beq; beq_iff = int_iff }
