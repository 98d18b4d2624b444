-- ===== src/Base/Int.antt =====
-- Go's signed integers. `negsuc n` is -(n + 1). The source counts with int32 and int64 fields that
-- it compares with small constants and divides; it adds to none of them but two counters of a list.
use Prim.Native.Nat.{ℕ, zero, suc, ◌+◌, ◌*◌, ◌/◌, ◌≤◌}
use mathlib.Core.Bool.{Bool, true, false}
use paas_controlplane.Base.Tests.{ltb}

pub data ℤ : Type 0 where
  pos : ℕ → ℤ
  negsuc : ℕ → ℤ

abbrev pub is_zero : ℤ → Bool
is_zero (pos zero) = true
is_zero (pos (suc n)) = false
is_zero (negsuc n) = false

-- n > 0, which for an integer is n >= 1
abbrev pub is_pos : ℤ → Bool
is_pos (pos zero) = false
is_pos (pos (suc n)) = true
is_pos (negsuc n) = false

-- a < b for a natural number b
abbrev pub lt_nat : ℤ → ℕ → Bool
lt_nat (pos n) b = ltb n b
lt_nat (negsuc n) b = true

-- a / b for b > 0: Go truncates towards zero.
abbrev pub quot_nat : ℤ → ℕ → ℤ
quot_nat (pos n) b = pos (n / b)
quot_nat (negsuc n) b = let q = suc n / b in elim q [ zero ↦ pos 0 | suc m ↦ negsuc m ]

abbrev pub pos_part : ℤ → ℕ
pos_part (pos n) = n
pos_part (negsuc n) = 0

abbrev pub neg_part : ℤ → ℕ
neg_part (pos n) = 0
neg_part (negsuc n) = suc n

infix 50 ◌≤ℤ◌
abbrev pub ◌≤ℤ◌ : ℤ → ℤ → Type 0
a ≤ℤ b = pos_part a + neg_part b ≤ pos_part b + neg_part a

-- a * b for a natural number b
abbrev pub times_nat : ℤ → ℕ → ℤ
times_nat (pos n) b = pos (n * b)
times_nat (negsuc n) zero = pos 0
times_nat (negsuc n) (suc b) = negsuc (n * suc b + b)
