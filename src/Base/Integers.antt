-- ===== src/Base/Integers.antt =====
-- Integers over the native numbers: `negsuc n` is -(n + 1).
use Prim.Native.Nat.{ℕ, zero, suc, ◌+◌, ◌≤◌}
use mathlib.Core.Path.{◌≡◌, refl}
use mathlib.Core.Bool.{Bool}
use native.Mathlib.Omega.{arith}
use reg_engine_ai.Base.Tests.{leb, ◌==◌}

pub data ℤ : Type 0 where
  pos : ℕ → ℤ
  negsuc : ℕ → ℤ

abbrev pub pos_part : ℤ → ℕ
pos_part (pos n) = n
pos_part (negsuc n) = 0

abbrev pub neg_part : ℤ → ℕ
neg_part (pos n) = 0
neg_part (negsuc n) = suc n

infix 50 ◌≤ℤ◌
abbrev pub ◌≤ℤ◌ : ℤ → ℤ → Type 0
a ≤ℤ b = pos_part a + neg_part b ≤ pos_part b + neg_part a

abbrev pub leb_ℤ : ℤ → ℤ → Bool
leb_ℤ a b = leb (pos_part a + neg_part b) (pos_part b + neg_part a)

abbrev pub eqb_ℤ : ℤ → ℤ → Bool
eqb_ℤ a b = pos_part a + neg_part b == pos_part b + neg_part a

-- z + 1
unfoldable pub next_ℤ : ℤ → ℤ
next_ℤ (pos n) = pos (suc n)
next_ℤ (negsuc zero) = pos zero
next_ℤ (negsuc (suc n)) = negsuc n

-- z - 1
unfoldable pub prev_ℤ : ℤ → ℤ
prev_ℤ (pos zero) = negsuc zero
prev_ℤ (pos (suc n)) = pos n
prev_ℤ (negsuc n) = negsuc (suc n)

-- z + n
unfoldable pub plus_ℤ : ℤ → ℕ → ℤ
unfolding next_ℤ
plus_ℤ z zero = z
plus_ℤ z (suc n) = plus_ℤ (next_ℤ z) n

pub next_parts : (z : ℤ) → pos_part (next_ℤ z) + neg_part z ≡ suc (pos_part z + neg_part (next_ℤ z))
unfolding next_ℤ
next_parts (pos n) = omega arith
next_parts (negsuc zero) = omega arith
next_parts (negsuc (suc n)) = omega arith

pub prev_parts : (z : ℤ) → suc (pos_part (prev_ℤ z) + neg_part z) ≡ pos_part z + neg_part (prev_ℤ z)
unfolding prev_ℤ
prev_parts (pos zero) = omega arith
prev_parts (pos (suc n)) = omega arith
prev_parts (negsuc n) = omega arith

pub plus_parts :
    (z : ℤ) (n : ℕ) → pos_part (plus_ℤ z n) + neg_part z ≡ pos_part z + neg_part (plus_ℤ z n) + n
unfolding plus_ℤ
plus_parts z zero = omega arith
plus_parts z (suc n) = omega (arith, plus_parts (next_ℤ z) n, next_parts z)

pub eq_of_parts : (a b : ℤ) → pos_part a + neg_part b ≡ pos_part b + neg_part a → a ≡ b
eq_of_parts a b h = ground arith

pub next-prev : (z : ℤ) → next_ℤ (prev_ℤ z) ≡ z
next-prev z = eq_of_parts (next_ℤ (prev_ℤ z)) z (omega (arith, next_parts (prev_ℤ z), prev_parts z))

pub next-plus : (z : ℤ) (n : ℕ) → next_ℤ (plus_ℤ z n) ≡ plus_ℤ (next_ℤ z) n
unfolding plus_ℤ
next-plus z zero = refl
next-plus z (suc n) = next-plus (next_ℤ z) n
