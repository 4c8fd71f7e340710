-- ===== src/Prelude/Int.antt =====
-- Go's `int` where a program tests it for its sign: `negsuc n` is -(n + 1).
use Prim.Native.Nat.{ℕ, zero, suc, ◌-◌, compare, Ordering}
use mathlib.Core.Bool.{Bool, true, false}
use meshp.Prelude.Tests.{ltb, ◌==◌}

pub data ℤ : Type 0 where
  pos : ℕ → ℤ
  negsuc : ℕ → ℤ

-- `if v <= 0 { v = d }`.
abbrev pub positive_or : ℕ → ℤ → ℕ
positive_or d (pos zero) = d
positive_or d (pos (suc n)) = suc n
positive_or d (negsuc n) = d

-- a - b
abbrev pub sub_ℕ : ℕ → ℕ → ℤ
sub_ℕ a b = elim (compare a b) [ Ordering.lt ↦ negsuc (b - a - 1) | _ ↦ pos (a - b) ]

-- a < b
abbrev pub int_lt : ℤ → ℤ → Bool
int_lt (pos a) (pos b) = ltb a b
int_lt (negsuc a) (pos b) = true
int_lt (pos a) (negsuc b) = false
int_lt (negsuc a) (negsuc b) = ltb b a

-- a == b
abbrev pub int_same : ℤ → ℤ → Bool
int_same (pos a) (pos b) = a == b
int_same (negsuc a) (negsuc b) = a == b
int_same _ _ = false
