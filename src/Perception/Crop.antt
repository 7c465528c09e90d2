-- ===== src/Perception/Crop.antt =====
-- crates/vcli-perception/src/frame_view.rs: `crop_rgb` and `frame_to_rgb`, which copy pixels out of
-- a frame. i32 sums wrap at 32 bits, as in a release build.
use vcli.Prelude.{
  ℕ, zero, suc, ◌%◌, ◌^◌, Bool, ◌||◌, Option, none, some, List, [], ◌∷◌, if◌then◌else◌, count,
  Result, ok, err, ℤ, pos, pos_part, leb_ℤ, add_i32, sub_i32,
}
use vcli.Prelude.{residue_32, signed_32}
use vcli.Core.Predicate.{Rect, Rgb, Frame}
use vcli.Perception.State.{PerceptionError, region_out_of_bounds}
use vcli.Perception.ColorAt.{pixel_rgb}
pub mod Copying

-- `RgbImage`, by its rows.
pub record RgbImage : Type 0 where
  pub width : ℕ
  pub height : ℕ
  pub rows : List (List Rgb)

abbrev pub max_ℤ : ℤ → ℤ → ℤ
max_ℤ a b = if leb_ℤ a b then b else a

abbrev pub min_ℤ : ℤ → ℤ → ℤ
min_ℤ a b = if leb_ℤ a b then a else b

-- What a loop of reads has: its items, an error that ends it, or `none` for a panic.
abbrev pub Reads : Type 0 → Type 0
Reads A = Option (Result PerceptionError A)

abbrev pub with_read : {A : Type 0} → Reads A → Reads (List A) → Reads (List A)
with_read none more = none
with_read (some (err e)) more = some (err e)
with_read (some (ok a)) none = none
with_read (some (ok a)) (some (err e)) = some (err e)
with_read (some (ok a)) (some (ok rest)) = some (ok (a ∷ rest))

-- `for col in 0..w`: `count` columns from `col` on.
unfoldable pub read_row : Frame → ℤ → ℤ → ℕ → ℕ → Reads (List Rgb)
unfolding add_i32
read_row frame left y zero col = some (ok [])
read_row frame left y (suc count) col =
    with_read (pixel_rgb frame (add_i32 left (signed_32 (col % 2 ^ 32))) y)
      (read_row frame left y count (suc col))

-- `for row in 0..h`
unfoldable pub read_rows : Frame → ℤ → ℤ → ℕ → ℕ → ℕ → Reads (List (List Rgb))
unfolding read_row
read_rows frame left top w zero row = some (ok [])
read_rows frame left top w (suc count) row =
    with_read (read_row frame left (add_i32 top (signed_32 (row % 2 ^ 32))) w 0)
      (read_rows frame left top w count (suc row))

abbrev pub as_image : ℕ → ℕ → Reads (List (List Rgb)) → Reads RgbImage
as_image w h none = none
as_image w h (some (err e)) = some (err e)
as_image w h (some (ok rows)) = some (ok (record { width = w; height = h; rows = rows }))

unfoldable pub copied : Frame → ℤ → ℤ → ℕ → ℕ → Reads RgbImage
unfolding read_rows
copied frame left top w h = as_image w h (read_rows frame left top w h 0)

-- The overlap of a region with a frame: its left, top, right and bottom.
unfoldable pub overlap : Frame → Rect → ℤ × ℤ × ℤ × ℤ
unfolding add_i32
overlap frame region =
    let fb = frame.bounds in
    (
      max_ℤ region.x fb.x,
      max_ℤ region.y fb.y,
      min_ℤ (add_i32 region.x region.w) (add_i32 fb.x fb.w),
      min_ℤ (add_i32 region.y region.h) (add_i32 fb.y fb.h),
    )

-- `x1 <= x0 || y1 <= y0`
abbrev pub is_empty : ℤ × ℤ × ℤ × ℤ → Bool
is_empty (x0, y0, x1, y1) = leb_ℤ x1 x0 || leb_ℤ y1 y0

abbrev pub cut_out : Frame → ℤ × ℤ × ℤ × ℤ → Reads RgbImage
cut_out frame (x0, y0, x1, y1) =
    copied frame (sub_i32 x0 frame.bounds.x) (sub_i32 y0 frame.bounds.y)
      (residue_32 (sub_i32 x1 x0)) (residue_32 (sub_i32 y1 y0))

unfoldable pub crop_rgb : Frame → Rect → Reads RgbImage
unfolding copied overlap sub_i32
crop_rgb frame region =
    if is_empty (overlap frame region)
    then some (err region_out_of_bounds)
    else cut_out frame (overlap frame region)

-- The size of a frame is not negative.
unfoldable pub frame_to_rgb : Frame → Reads RgbImage
unfolding copied
frame_to_rgb frame =
    copied frame (pos 0) (pos 0) (pos_part frame.bounds.w) (pos_part frame.bounds.h)
