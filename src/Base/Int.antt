-- ===== src/Base/Int.antt =====
-- Go's `int`, as far as the code compares it.
use Prim.Native.Nat.{ℕ}
use mathlib.Core.Bool.{Bool, true, false}
use kube_overlay_operator.Base.Tests.{leb, nat_eq}

-- `negsuc n` is -(n + 1).
pub data ℤ : Type 0 where
  pos : ℕ → ℤ
  negsuc : ℕ → ℤ

abbrev pub int_eq : ℤ → ℤ → Bool
int_eq (pos a) (pos b) = nat_eq a b
int_eq (negsuc a) (negsuc b) = nat_eq a b
int_eq _ _ = false

-- `a <= n`, at a numeral n
abbrev pub int_le : ℤ → ℕ → Bool
int_le (pos a) n = leb a n
int_le (negsuc a) n = true
