-- ===== src/Prelude/Int.antt =====
-- Go's int32 as integers in a range, with its wrap-around.
use Prim.Native.Nat.{ℕ, zero, suc, ◌+◌, ◌-◌, ◌/◌}
use mathlib.Core.Bool.{Bool, true, false}
use opensearch_k8s_operator.Prelude.Tests.{ltb, leb, nat_eq, if◌then◌else◌}

-- `negsuc n` is -(n + 1).
pub data ℤ : Type 0 where
  pos : ℕ → ℤ
  negsuc : ℕ → ℤ

-- a - b, as an integer.
abbrev pub sub_ℕ : ℕ → ℕ → ℤ
sub_ℕ a b = if leb b a then pos (a - b) else negsuc (b - a - 1)

-- A number outside the int32 range by less than one period comes back into it. A sum or a
-- difference of two int32 values leaves the range by no more.
abbrev pub i32 : ℤ → ℤ
i32 (pos n) = if ltb n 2147483648 then pos n else sub_ℕ n 4294967296
i32 (negsuc n) = if ltb n 2147483648 then negsuc n else pos (4294967295 - n)

infixl 65 ◌+ℤ◌ ◌-ℤ◌
abbrev pub ◌+ℤ◌ : ℤ → ℤ → ℤ
pos a +ℤ pos b = i32 (pos (a + b))
pos a +ℤ negsuc b = i32 (sub_ℕ a (suc b))
negsuc a +ℤ pos b = i32 (sub_ℕ b (suc a))
negsuc a +ℤ negsuc b = i32 (negsuc (suc (a + b)))

abbrev pub ◌-ℤ◌ : ℤ → ℤ → ℤ
pos a -ℤ pos b = i32 (sub_ℕ a b)
pos a -ℤ negsuc b = i32 (pos (a + suc b))
negsuc a -ℤ pos b = i32 (negsuc (a + b))
negsuc a -ℤ negsuc b = i32 (sub_ℕ b a)

infix 50 ◌==ℤ◌ ◌<ℤ◌
abbrev pub ◌==ℤ◌ : ℤ → ℤ → Bool
pos a ==ℤ pos b = nat_eq a b
negsuc a ==ℤ negsuc b = nat_eq a b
_ ==ℤ _ = false

abbrev pub ◌<ℤ◌ : ℤ → ℤ → Bool
pos a <ℤ pos b = ltb a b
pos a <ℤ negsuc b = false
negsuc a <ℤ pos b = true
negsuc a <ℤ negsuc b = ltb b a

-- (x + 1) / 2 on int32, which truncates towards zero.
abbrev pub half : ℤ → ℤ
half (pos n) = pos (n / 2)
half (negsuc n) = elim (suc n / 2) [ zero ↦ pos 0 | suc k ↦ negsuc k ]
