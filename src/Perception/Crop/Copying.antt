-- ===== src/Perception/Crop/Copying.antt =====
-- crates/vcli-perception/src/frame_view.rs: what a copy of pixels answers.
use vcli.Prelude.{
  suc, ap, refl, Bool-cases, inl, inr, ◌∷◌, ℕ, zero, ◌≡◌, ◌⊎◌, some, List, [], length, count, All,
  ok, err, ℤ, sub_i32,
}
use vcli.Prelude.{sub_i32, residue_32}
use vcli.Core.Predicate.{Rect, Frame}
use vcli.Perception.State.{region_out_of_bounds}
use vcli.Perception.ColorAt.{pixel_rgb}
use vcli.Perception.ColorAt.Bounds.{IsFrame, pixel_rgb-IsFrame}
use vcli.Perception.Crop.{
  is_empty, overlap, RgbImage, Reads, with_read, read_row, read_rows, copied, crop_rgb,
}

-- The error of the region, or something that is as it should be.
AnswersWith : {A : Type 0} → (A → Type 0) → Reads A → Type 0
AnswersWith P r = (r ≡ some (err region_out_of_bounds)) ⊎ (a : _) × (r ≡ some (ok a)) × P a

with_read-answers :
    {A : Type 0} (P : A → Type 0) (Q R : List A → Type 0) (r : Reads A) (more : Reads (List A))
    → AnswersWith P r
    → AnswersWith Q more
    → ((a : A) (rest : List A) → P a → Q rest → R (a ∷ rest))
    → AnswersWith R (with_read r more)
unfolding AnswersWith
with_read-answers P Q R r more (inl e) h f = rw e (inl refl)
with_read-answers P Q R r more (inr (a, e, p)) (inl e') f = rw (e, e') (inl refl)
with_read-answers P Q R r more (inr (a, e, p)) (inr (rest, e', q)) f =
    rw (e, e') (inr (a ∷ rest, refl, f a rest p q))

pixel_rgb-answers :
    (frame : Frame) (x y : ℤ) → IsFrame frame → AnswersWith (λ c. Unit {0}) (pixel_rgb frame x y)
unfolding AnswersWith
pixel_rgb-answers frame x y f = elim (pixel_rgb-IsFrame frame x y f) [
  | inl (out, e) ↦ inl e
  | inr (within_it, c, e) ↦ inr (c, e, tt)
]

-- An image has its height in rows and in each its width in pixels.
abbrev pub IsFilled : RgbImage → Type 0
IsFilled image =
    (length image.rows ≡ image.height) × All (λ row. length row ≡ image.width) image.rows

read_row-answers :
    (frame : Frame) (left y : ℤ) (count col : ℕ)
    → IsFrame frame
    → AnswersWith (λ row. length row ≡ count) (read_row frame left y count col)
unfolding read_row AnswersWith
read_row-answers frame left y zero col f = inr ([], refl, refl)
read_row-answers frame left y (suc count) col f =
    with_read-answers (λ c. Unit {0}) (λ row. length row ≡ count) _ _ _
      (pixel_rgb-answers frame _ y f) (read_row-answers frame left y count (suc col) f)
      (λ c rest u e. ap suc e)

read_rows-answers :
    (frame : Frame) (left top : ℤ) (w count row : ℕ)
    → IsFrame frame
    → AnswersWith
        (λ rows. (length rows ≡ count) × All (λ row. length row ≡ w) rows)
        (read_rows frame left top w count row)
unfolding read_rows AnswersWith
read_rows-answers frame left top w zero row f = inr ([], refl, (refl, tt))
read_rows-answers frame left top w (suc count) row f =
    with_read-answers (λ cells. length cells ≡ w)
      (λ rows. (length rows ≡ count) × All (λ cells. length cells ≡ w) rows) _ _ _
      (read_row-answers frame left _ w 0 f) (read_rows-answers frame left top w count (suc row) f)
      (λ cells rest e (n, sizes). (ap suc n, (e, sizes)))

copied-answers :
    (frame : Frame) (left top : ℤ) (w h : ℕ)
    → IsFrame frame
    → AnswersWith IsFilled (copied frame left top w h)
unfolding copied AnswersWith
copied-answers frame left top w h f = elim (read_rows-answers frame left top w h 0 f) [
  | inl e ↦ rw e (inl refl)
  | inr (rows, e, filled) ↦ rw e (inr (record { width = w; height = h; rows = rows }, refl, filled))
]

-- A crop of a frame never leaves its buffer: it answers the error of the region, or an image that
-- is filled, whatever the region is and wherever its sums wrap.
pub crop_rgb-answers :
    (frame : Frame) (region : Rect)
    → IsFrame frame
    → (crop_rgb frame region ≡ some (err region_out_of_bounds))
      ⊎ (image : RgbImage) × (crop_rgb frame region ≡ some (ok image)) × IsFilled image
unfolding crop_rgb overlap AnswersWith
crop_rgb-answers frame region f = elim (Bool-cases (is_empty (overlap frame region))) [
  | inl e ↦ inl (rw e refl)
  | inr e ↦
      let (x0, y0, x1, y1) = overlap frame region in
      rw e (
        copied-answers frame (sub_i32 x0 frame.bounds.x) (sub_i32 y0 frame.bounds.y)
          (residue_32 (sub_i32 x1 x0)) (residue_32 (sub_i32 y1 y0)) f)
]
