-- ===== src/Base/Int.antt =====
-- The integers over the native numbers, under the library's names.
use Prim.Native.Nat.{ℕ, zero, suc, ◌+◌, ◌-◌}
use native.Mathlib.Decide.{dec_le}

pub data ℤ : Type 0 where
  pos : ℕ → ℤ
  negsuc : ℕ → ℤ

abbrev pub neg : ℤ → ℤ
neg (pos zero) = pos zero
neg (pos (suc n)) = negsuc n
neg (negsuc n) = pos (suc n)

infixl 60 ◌+ℤ◌
abbrev pub ◌+ℤ◌ : ℤ → ℤ → ℤ
pos m +ℤ pos n = pos (m + n)
pos m +ℤ negsuc n = elim (dec_le (suc n) m) [ yes h ↦ pos (m - suc n) | no h ↦ negsuc (n - m) ]
negsuc m +ℤ pos n = elim (dec_le (suc m) n) [ yes h ↦ pos (n - suc m) | no h ↦ negsuc (m - n) ]
negsuc m +ℤ negsuc n = negsuc (m + n + 1)
