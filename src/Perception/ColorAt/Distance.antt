-- ===== src/Perception/ColorAt/Distance.antt =====
-- The distance of two colors, computed without wrap-around, and where a pixel lies in the buffer.
use vcli.Prelude.{
  ℕ, ◌+◌, ◌-◌, ◌*◌, ◌%◌, ◌^◌, ◌≤◌, ◌<◌, ◌≡◌, ap, ◌∙◌, inl, inr, false, arith, leb, if◌then◌else◌,
  Bool-cases, ℤ, pos, negsuc, pos_part, neg_part, ◌+ℤ◌, ◌-ℤ◌, leb_ℤ, add_i32, sub_i32, refl,
}
use vcli.Prelude.{signed_32}
use native.Mathlib.Nat.{mul-le-mul}
use vcli.Core.Predicate.{Rgb}
use vcli.Perception.ColorAt.{square_i32, within}

-- Three bytes.
pub record IsRgb (c : Rgb) : Type 0 where
  pub r : c.r < 256
  pub g : c.g < 256
  pub b : c.b < 256

abbrev pub gap : ℕ → ℕ → ℕ
gap a b = (a - b) + (b - a)

-- The square of the Euclidean distance.
abbrev pub distance_sq : Rgb → Rgb → ℕ
distance_sq c d = gap c.r d.r * gap c.r d.r + gap c.g d.g * gap c.g d.g + gap c.b d.b * gap c.b d.b

the_same : (n : ℕ) → n + 0 ≡ n
the_same n = omega arith

signed_small : (m : ℕ) → m < 2 ^ 31 → signed_32 (m % 2 ^ 32) ≡ pos m
signed_small m h = ground arith

square_of :
    (z : ℤ) (n : ℕ) → pos_part z + neg_part z ≡ n → n * n < 2 ^ 31 → square_i32 z ≡ pos (n * n)
unfolding square_i32
square_of z n e h = ap (λ m. signed_32 (m * m % 2 ^ 32)) e ∙ signed_small (n * n) h

sub-gap :
    (a b : ℕ)
    → a < 256
    → b < 256
    → pos_part (sub_i32 (pos a) (pos b)) + neg_part (sub_i32 (pos a) (pos b)) ≡ gap a b
unfolding sub_i32 ◌-ℤ◌
sub-gap a b ha hb = ground arith

add_small : (a b : ℕ) → a + b < 2 ^ 31 → add_i32 (pos a) (pos b) ≡ pos (a + b)
unfolding add_i32 ◌+ℤ◌
add_small a b h = ground arith

gap_sq : (a b : ℕ) → a < 256 → b < 256 → gap a b * gap a b ≤ 65025
gap_sq a b ha hb =
    mul-le-mul {n₁ = gap a b} {m₁ = gap a b} {n₂ = 255} {m₂ = 255} (omega arith) (omega arith)

module _ (c t : Rgb) (hc : IsRgb c) (ht : IsRgb t) where
  distance_small : distance_sq c t ≤ 195075
  distance_small =
      omega (arith, gap_sq c.r t.r hc.r ht.r, gap_sq c.g t.g hc.g ht.g, gap_sq c.b t.b hc.b ht.b)

  channel :
      (a b : ℕ) → a < 256 → b < 256 → square_i32 (sub_i32 (pos a) (pos b)) ≡ pos (gap a b * gap a b)
  channel a b ha hb =
      square_of (sub_i32 (pos a) (pos b)) (gap a b) (sub-gap a b ha hb)
        (omega (arith, gap_sq a b ha hb))

  within-exact :
      (tolerance : ℕ)
      → within c t tolerance ≡ leb_ℤ (pos (distance_sq c t)) (square_i32 (pos tolerance))
  unfolding within
  within-exact tolerance =
      rw
        (
          channel c.r t.r hc.r ht.r,
          channel c.g t.g hc.g ht.g,
          channel c.b t.b hc.b ht.b,
          add_small (gap c.r t.r * gap c.r t.r) (gap c.g t.g * gap c.g t.g)
              (omega (arith, distance_small)),
          add_small (gap c.r t.r * gap c.r t.r + gap c.g t.g * gap c.g t.g)
              (gap c.b t.b * gap c.b t.b) (omega (arith, distance_small)),
        )
        refl

  -- For bytes, the comparison of the code is that of the Euclidean distance with the tolerance, for
  -- a tolerance of at most 46340; the square of a larger `u16` leaves the range of `i32`, wraps to
  -- a negative number, and no color is within the tolerance, not even the target itself.
  pub within-distance_sq :
      (tolerance : ℕ)
      → tolerance < 2 ^ 16
      → within c t tolerance
        ≡ (if leb tolerance 46340 then leb (distance_sq c t) (tolerance * tolerance) else false)
  unfolding square_i32
  within-distance_sq tolerance h =
      within-exact tolerance ∙ elim (Bool-cases (leb tolerance 46340)) [
        | inl e ↦
            let low : tolerance * tolerance ≤ 46340 * 46340 =
              mul-le-mul {n₁ = tolerance} {m₁ = tolerance} {n₂ = 46340} {m₂ = 46340} (ground arith)
                (ground arith) in
            rw (e, square_of (pos tolerance) tolerance (omega arith) (omega (arith, low)))
              (ground arith)
        | inr e ↦
            let low : 46341 * 46341 ≤ tolerance * tolerance =
              mul-le-mul {n₁ = 46341} {m₁ = 46341} {n₂ = tolerance} {m₂ = tolerance} (ground arith)
                (ground arith) in
            let high : tolerance * tolerance ≤ 65535 * 65535 =
              mul-le-mul {n₁ = tolerance} {m₁ = tolerance} {n₂ = 65535} {m₂ = 65535}
                (omega (arith, h)) (omega (arith, h)) in
            rw (e, negative low high) (ground arith)
      ]
    where
      wrapped :
          (m : ℕ)
          → 46341 * 46341 ≤ m
          → m ≤ 65535 * 65535
          → signed_32 (m % 2 ^ 32) ≡ negsuc (2 ^ 32 - 1 - m)
      wrapped m low high = ground arith

      negative :
          46341 * 46341 ≤ tolerance * tolerance
          → tolerance * tolerance ≤ 65535 * 65535
          → square_i32 (pos tolerance) ≡ negsuc (2 ^ 32 - 1 - tolerance * tolerance)
      negative low high =
          ap (λ m. signed_32 (m * m % 2 ^ 32)) (the_same tolerance)
          ∙ wrapped (tolerance * tolerance) low high
