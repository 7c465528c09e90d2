-- ===== src/Prelude/Int.antt =====
-- Signed machine integers: the integers over the native numbers, with the range of `i64` for the
-- saturating operations and `UnixMs`.
use Prim.Native.Nat.{ℕ, suc, ◌+◌, ◌-◌, ◌^◌, ◌≤◌, ◌<◌, ◌%◌}
use mathlib.Core.Path.{◌≡◌}
use mathlib.Core.Bool.{Bool}
use native.Mathlib.Omega.{arith}
use vcli.Prelude.Tests.{ltb, leb, if◌then◌else◌}

-- `negsuc n` is -(n + 1).
pub data ℤ : Type 0 where
  pos : ℕ → ℤ
  negsuc : ℕ → ℤ

abbrev pub pos_part : ℤ → ℕ
pos_part (pos n) = n
pos_part (negsuc n) = 0

abbrev pub neg_part : ℤ → ℕ
neg_part (pos n) = 0
neg_part (negsuc n) = suc n

abbrev pub sub_ℕ : ℕ → ℕ → ℤ
sub_ℕ a b = if leb b a then pos (a - b) else negsuc (b - a - 1)

infixl 65 ◌+ℤ◌ ◌-ℤ◌
infix 50 ◌≤ℤ◌
unfoldable pub ◌+ℤ◌ : ℤ → ℤ → ℤ
a +ℤ b = sub_ℕ (pos_part a + pos_part b) (neg_part a + neg_part b)

unfoldable pub ◌-ℤ◌ : ℤ → ℤ → ℤ
a -ℤ b = sub_ℕ (pos_part a + neg_part b) (neg_part a + pos_part b)

abbrev pub ◌≤ℤ◌ : ℤ → ℤ → Type 0
a ≤ℤ b = pos_part a + neg_part b ≤ pos_part b + neg_part a

abbrev pub leb_ℤ : ℤ → ℤ → Bool
leb_ℤ a b = leb (pos_part a + neg_part b) (pos_part b + neg_part a)

abbrev pub ltb_ℤ : ℤ → ℤ → Bool
ltb_ℤ a b = ltb (pos_part a + neg_part b) (pos_part b + neg_part a)

-- i64::MAX, and the number n such that i64::MIN is negsuc n.
abbrev pub i64_max : ℕ
i64_max = 2 ^ 63 - 1

abbrev pub clamp_i64 : ℤ → ℤ
clamp_i64 (pos n) = if leb n i64_max then pos n else pos i64_max
clamp_i64 (negsuc n) = if leb n i64_max then negsuc n else negsuc i64_max

abbrev pub InI64 : ℤ → Type 0
InI64 (pos n) = n ≤ i64_max
InI64 (negsuc n) = n ≤ i64_max

unfoldable pub saturating_add : ℤ → ℤ → ℤ
unfolding ◌+ℤ◌
saturating_add a b = clamp_i64 (a +ℤ b)

unfoldable pub saturating_sub : ℤ → ℤ → ℤ
unfolding ◌-ℤ◌
saturating_sub a b = clamp_i64 (a -ℤ b)

-- A difference below the range's end is the true one.
pub saturating_sub-ltb :
    (a b : ℤ) (n : ℕ)
    → n ≤ i64_max
    → ltb_ℤ (saturating_sub a b) (pos n)
      ≡ ltb (pos_part a + neg_part b) (n + pos_part b + neg_part a)
unfolding saturating_sub
saturating_sub-ltb a b n h = ground arith

-- The sum of two `i32`s as a release build computes it, modulo 2 ^ 32.
abbrev pub residue_32 : ℤ → ℕ
residue_32 (pos n) = n % 2 ^ 32
residue_32 (negsuc n) = 2 ^ 32 - 1 - n % 2 ^ 32

abbrev pub signed_32 : ℕ → ℤ
signed_32 r = if ltb r (2 ^ 31) then pos r else negsuc (2 ^ 32 - 1 - r)

abbrev pub InI32 : ℤ → Type 0
InI32 (pos n) = n < 2 ^ 31
InI32 (negsuc n) = n < 2 ^ 31

unfoldable pub add_i32 : ℤ → ℤ → ℤ
unfolding ◌+ℤ◌
add_i32 a b = signed_32 (residue_32 (a +ℤ b))

unfoldable pub sub_i32 : ℤ → ℤ → ℤ
unfolding ◌-ℤ◌
sub_i32 a b = signed_32 (residue_32 (a -ℤ b))
