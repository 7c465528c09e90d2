-- ===== src/Perception/ColorAt.antt =====
-- crates/vcli-perception/src/color_at.rs and `pixel_rgb` of frame_view.rs: the color of one pixel.
use vcli.Prelude.{
  ℕ, ◌+◌, ◌-◌, ◌*◌, ◌%◌, ◌^◌, Bool, ◌||◌, Option, none, some, leb, if◌then◌else◌, get_elem?, Result,
  ok, err, ℤ, pos, pos_part, neg_part, leb_ℤ, ltb_ℤ, add_i32, sub_i32,
}
use vcli.Prelude.{signed_32}
use vcli.Core.Predicate.{Point, Rgb, PredicateResult, FrameFormat, bgra8, rgba8, Frame}
use vcli.Perception.State.{PerceptionError, region_out_of_bounds, Context}
use vcli.Perception.Evaluation.{verdict}
pub mod Distance
pub mod Bounds

-- `saturating_mul` of `usize`.
abbrev pub mul_usize : ℕ → ℕ → ℕ
mul_usize a b = if leb (a * b) (2 ^ 64 - 1) then a * b else 2 ^ 64 - 1

abbrev pub bytes_per_pixel : FrameFormat → ℕ
bytes_per_pixel bgra8 = 4
bytes_per_pixel rgba8 = 4

-- `bytes[0]`, `bytes[1]` and `bytes[2]` of the pixel; `none` where the slice would panic.
abbrev pub rgb_of : FrameFormat → Option ℕ → Option ℕ → Option ℕ → Option ℕ → Option Rgb
rgb_of bgra8 (some b) (some g) (some r) (some a) = some (record { r = r; g = g; b = b })
rgb_of rgba8 (some r) (some g) (some b) (some a) = some (record { r = r; g = g; b = b })
rgb_of format _ _ _ _ = none

abbrev pub is_outside : Frame → ℤ → ℤ → Bool
is_outside frame x y =
    ltb_ℤ x (pos 0) || ltb_ℤ y (pos 0) || leb_ℤ frame.bounds.w x || leb_ℤ frame.bounds.h y

-- The error, the color, or `none` where the slice would panic.
unfoldable pub pixel_rgb : Frame → ℤ → ℤ → Option (Result PerceptionError Rgb)
pixel_rgb frame x y =
    if is_outside frame x y
    then some (err region_out_of_bounds)
    else let offset =
        mul_usize (pos_part y) frame.stride
        + mul_usize (pos_part x) (bytes_per_pixel frame.format) in
      elim (rgb_of frame.format (get_elem? frame.pixels offset)
        (get_elem? frame.pixels (offset + 1)) (get_elem? frame.pixels (offset + 2))
        (get_elem? frame.pixels (offset + 3))) [ none ↦ none | some rgb ↦ some (ok rgb) ]

-- `a * a` of an `i32`.
unfoldable pub square_i32 : ℤ → ℤ
square_i32 a = signed_32 ((pos_part a + neg_part a) * (pos_part a + neg_part a) % 2 ^ 32)

-- The comparison of `ColorAtEvaluator::sample`.
unfoldable pub within : Rgb → Rgb → ℕ → Bool
unfolding square_i32
within c target tolerance =
    let dr = sub_i32 (pos c.r) (pos target.r) in
    let dg = sub_i32 (pos c.g) (pos target.g) in
    let db = sub_i32 (pos c.b) (pos target.b) in
    let dist_sq = add_i32 (add_i32 (square_i32 dr) (square_i32 dg)) (square_i32 db) in
    leb_ℤ dist_sq (square_i32 (pos tolerance))

abbrev pub sampled :
    Rgb → ℕ → Option (Result PerceptionError Rgb) → Option (Result PerceptionError Bool)
sampled target tolerance none = none
sampled target tolerance (some (err e)) = some (err e)
sampled target tolerance (some (ok c)) = some (ok (within c target tolerance))

unfoldable pub sample : Frame → ℤ → ℤ → Rgb → ℕ → Option (Result PerceptionError Bool)
unfolding pixel_rgb within
sample frame x y target tolerance = sampled target tolerance (pixel_rgb frame x y)

abbrev pub as_verdict :
    Context → Option (Result PerceptionError Bool) → Option (Result PerceptionError PredicateResult)
as_verdict ctx none = none
as_verdict ctx (some (err e)) = some (err e)
as_verdict ctx (some (ok t)) = some (ok (verdict ctx t))

-- `ColorAtEvaluator::evaluate` on the fields of a `color_at`; the point is on the screen.
unfoldable pub evaluate_color_at :
    Context → Point → Rgb → ℕ → Option (Result PerceptionError PredicateResult)
unfolding sample
evaluate_color_at ctx point rgb tolerance = as_verdict ctx (
    sample ctx.frame (sub_i32 point.x ctx.frame.bounds.x) (sub_i32 point.y ctx.frame.bounds.y) rgb
      tolerance)
