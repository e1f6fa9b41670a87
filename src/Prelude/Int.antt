-- ===== src/Prelude/Int.antt =====
-- Signed integers over the native numbers, under the library's names, and Go's fixed widths.
use k8s_docker_operator.Prelude.{
  ℕ, suc, ◌+◌, ◌-◌, ◌*◌, ◌%◌, ◌/◌, ◌^◌, ◌≤◌, ◌<◌, ◌≡◌, refl, ◌⊎◌, Bool, arith, ltb, leb,
  if◌then◌else◌,
}

-- `negsuc n` is -(n + 1).
pub data ℤ : Type 0 where
  pos : ℕ → ℤ
  negsuc : ℕ → ℤ

abbrev pub pos_part : ℤ → ℕ
pos_part (pos n) = n
pos_part (negsuc n) = 0

abbrev pub neg_part : ℤ → ℕ
neg_part (pos n) = 0
neg_part (negsuc n) = suc n

-- a - b, as an integer.
abbrev pub sub_ℕ : ℕ → ℕ → ℤ
sub_ℕ a b = if leb b a then pos (a - b) else negsuc (b - a - 1)

infixl 65 ◌+ℤ◌ ◌-ℤ◌
infixl 70 ◌*ℤ◌
infix 50 ◌≤ℤ◌ ◌<ℤ◌
unfoldable pub ◌+ℤ◌ : ℤ → ℤ → ℤ
a +ℤ b = sub_ℕ (pos_part a + pos_part b) (neg_part a + neg_part b)

unfoldable pub ◌-ℤ◌ : ℤ → ℤ → ℤ
a -ℤ b = sub_ℕ (pos_part a + neg_part b) (neg_part a + pos_part b)

unfoldable pub ◌*ℤ◌ : ℤ → ℤ → ℤ
a *ℤ b =
    sub_ℕ (pos_part a * pos_part b + neg_part a * neg_part b)
      (pos_part a * neg_part b + neg_part a * pos_part b)

abbrev pub ◌≤ℤ◌ : ℤ → ℤ → Type 0
a ≤ℤ b = pos_part a + neg_part b ≤ pos_part b + neg_part a

abbrev pub ◌<ℤ◌ : ℤ → ℤ → Type 0
a <ℤ b = pos_part a + neg_part b < pos_part b + neg_part a

abbrev pub ltb_ℤ : ℤ → ℤ → Bool
ltb_ℤ a b = ltb (pos_part a + neg_part b) (pos_part b + neg_part a)

abbrev pub leb_ℤ : ℤ → ℤ → Bool
leb_ℤ a b = leb (pos_part a + neg_part b) (pos_part b + neg_part a)

abbrev pub eqb_ℤ : ℤ → ℤ → Bool
eqb_ℤ a b = elim (leb_ℤ a b) [ Bool.true ↦ leb_ℤ b a | Bool.false ↦ Bool.false ]

pub +ℤ_parts :
    (a b : ℤ)
    → pos_part (a +ℤ b) + neg_part a + neg_part b ≡ neg_part (a +ℤ b) + pos_part a + pos_part b
unfolding ◌+ℤ◌
+ℤ_parts a b = ground arith

pub -ℤ_parts :
    (a b : ℤ)
    → pos_part (a -ℤ b) + neg_part a + pos_part b ≡ neg_part (a -ℤ b) + pos_part a + neg_part b
unfolding ◌-ℤ◌
-ℤ_parts a b = ground arith

pub eq_of_parts : (a b : ℤ) → pos_part a + neg_part b ≡ pos_part b + neg_part a → a ≡ b
eq_of_parts a b h = ground arith

-- At most one part is not 0.
pub one_part : (a : ℤ) → (pos_part a ≡ 0) ⊎ (neg_part a ≡ 0)
one_part a = ground arith

-- The residue of an integer mod `m`, and the integer in [-m/2, m/2) of a residue: what a conversion
-- to a signed type of `w` bits does, with m = 2 ^ w.
unfoldable pub residue : ℕ → ℤ → ℕ
residue m (pos n) = n % m
residue m (negsuc n) = m - 1 - n % m

unfoldable pub signed : ℕ → ℕ → ℤ
signed m r = if ltb r (m / 2) then pos r else negsuc (m - r - 1)

abbrev pub mod32 : ℕ
mod32 = 2 ^ 32

abbrev pub mod64 : ℕ
mod64 = 2 ^ 64

unfoldable pub int32 : ℤ → ℤ
unfolding residue signed
int32 z = signed mod32 (residue mod32 z)

unfoldable pub int64 : ℤ → ℤ
unfolding residue signed
int64 z = signed mod64 (residue mod64 z)

abbrev pub InInt32 : ℤ → Type 0
InInt32 z = (pos_part z < 2147483648) × (neg_part z ≤ 2147483648)

abbrev pub InInt64 : ℤ → Type 0
InInt64 z = (pos_part z < 9223372036854775808) × (neg_part z ≤ 9223372036854775808)

pub int32-InInt32 : (z : ℤ) → InInt32 (int32 z)
unfolding int32
int32-InInt32 z = ground arith

pub int64-InInt64 : (z : ℤ) → InInt64 (int64 z)
unfolding int64
int64-InInt64 z = ground arith

-- A value in range is left as it is.
pub int32_id : (z : ℤ) → InInt32 z → int32 z ≡ z
unfolding int32
int32_id z h = ground arith

pub int64_id : (z : ℤ) → InInt64 z → int64 z ≡ z
unfolding int64
int64_id z h = ground arith

pub ruleset int_laws = (arith, +ℤ_parts, -ℤ_parts, one_part, eq_of_parts)
