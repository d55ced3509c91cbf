-- ===== src/Prelude/Int.antt =====
-- Signed integers over the native numbers: Go's `int64` and `int` where a value may be negative.
-- Sums and orders go through the two parts of an integer, which are numbers that `omega` reads.
use Prim.Native.Nat.{ℕ, suc, ◌+◌, ◌-◌, ◌≤◌}
use mathlib.Core.Path.{◌≡◌, refl}
use mathlib.Core.Logic.{◌⊎◌, inl, inr}
use mathlib.Core.Bool.{Bool}
use native.Mathlib.Omega.{arith}
use rclone_vfs.Prelude.Tests.{ltb, leb, Bool-cases, ◌==◌, if◌then◌else◌}

-- `negsuc n` is -(n + 1).
pub data ℤ : Type 0 where
  pos : ℕ → ℤ
  negsuc : ℕ → ℤ

abbrev pub pos_part : ℤ → ℕ
pos_part (pos n) = n
pos_part (negsuc n) = 0

abbrev pub neg_part : ℤ → ℕ
neg_part (pos n) = 0
neg_part (negsuc n) = suc n

-- a - b, as an integer.
abbrev pub sub_ℕ : ℕ → ℕ → ℤ
sub_ℕ a b = if leb b a then pos (a - b) else negsuc (b - a - 1)

infixl 65 ◌+ℤ◌ ◌-ℤ◌
infix 50 ◌≤ℤ◌ ◌<ℤ◌
unfoldable pub ◌+ℤ◌ : ℤ → ℤ → ℤ
a +ℤ b = sub_ℕ (pos_part a + pos_part b) (neg_part a + neg_part b)

unfoldable pub ◌-ℤ◌ : ℤ → ℤ → ℤ
a -ℤ b = sub_ℕ (pos_part a + neg_part b) (neg_part a + pos_part b)

abbrev pub ◌≤ℤ◌ : ℤ → ℤ → Type 0
a ≤ℤ b = pos_part a + neg_part b ≤ pos_part b + neg_part a

abbrev pub ◌<ℤ◌ : ℤ → ℤ → Type 0
a <ℤ b = suc (pos_part a + neg_part b) ≤ pos_part b + neg_part a

abbrev pub ltb_ℤ : ℤ → ℤ → Bool
ltb_ℤ a b = ltb (pos_part a + neg_part b) (pos_part b + neg_part a)

abbrev pub leb_ℤ : ℤ → ℤ → Bool
leb_ℤ a b = leb (pos_part a + neg_part b) (pos_part b + neg_part a)

abbrev pub eqb_ℤ : ℤ → ℤ → Bool
eqb_ℤ a b = pos_part a + neg_part b == pos_part b + neg_part a

unfoldable pub max_ℤ : ℤ → ℤ → ℤ
max_ℤ a b = if ltb_ℤ a b then b else a

unfoldable pub min_ℤ : ℤ → ℤ → ℤ
min_ℤ a b = if ltb_ℤ b a then b else a

-- One lemma for each operation lets `omega` work with the operations shut, at any depth.
pub +ℤ_parts :
    (a b : ℤ)
    → pos_part (a +ℤ b) + neg_part a + neg_part b ≡ neg_part (a +ℤ b) + pos_part a + pos_part b
unfolding ◌+ℤ◌
+ℤ_parts a b = ground arith

pub -ℤ_parts :
    (a b : ℤ)
    → pos_part (a -ℤ b) + neg_part a + pos_part b ≡ neg_part (a -ℤ b) + pos_part a + neg_part b
unfolding ◌-ℤ◌
-ℤ_parts a b = ground arith

pub eq_of_parts : (a b : ℤ) → pos_part a + neg_part b ≡ pos_part b + neg_part a → a ≡ b
eq_of_parts a b h = ground arith

pub ruleset int_laws = (arith, +ℤ_parts, -ℤ_parts, eq_of_parts)

pub max_ℤ_cases : (a b : ℤ) → ((max_ℤ a b ≡ a) × (b ≤ℤ a)) ⊎ ((max_ℤ a b ≡ b) × (a ≤ℤ b))
unfolding max_ℤ
max_ℤ_cases a b = elim (Bool-cases (ltb_ℤ a b)) [
  | inl e ↦ rw e (inr (refl, ground arith))
  | inr e ↦ rw e (inl (refl, ground arith))
]

pub min_ℤ_cases : (a b : ℤ) → ((min_ℤ a b ≡ a) × (a ≤ℤ b)) ⊎ ((min_ℤ a b ≡ b) × (b ≤ℤ a))
unfolding min_ℤ
min_ℤ_cases a b = elim (Bool-cases (ltb_ℤ b a)) [
  | inl e ↦ rw e (inr (refl, ground arith))
  | inr e ↦ rw e (inl (refl, ground arith))
]

pub max_ℤ_left : (a b : ℤ) → b ≤ℤ a → max_ℤ a b ≡ a
unfolding max_ℤ
max_ℤ_left a b le = elim (Bool-cases (ltb_ℤ a b)) [ inl e ↦ absurd (ground arith) | inr e ↦ rw e ]

pub max_ℤ_right : (a b : ℤ) → a ≤ℤ b → max_ℤ a b ≡ b
unfolding max_ℤ
max_ℤ_right a b le = elim (Bool-cases (ltb_ℤ a b)) [
  | inl e ↦ rw e
  | inr e ↦ rw e (eq_of_parts a b (ground arith))
]
