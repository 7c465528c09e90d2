-- ===== src/Perception/Template/Places.antt =====
-- crates/vcli-perception/src/template.rs: where a match lies.
use vcli.Prelude.{
  refl, Bool-cases, Bool, String, Result, ok, some, lookup, List, inl, inr, false, true, ◌⊎◌, ℕ,
  ◌+◌, ◌^◌, ◌≤◌, ◌<◌, ◌≡◌, arith, ℤ, pos, negsuc, ◌+ℤ◌, ◌≤ℤ◌, add_i32, InI32,
}
use vcli.Prelude.{signed_32, residue_32}
use vcli.Core.Predicate.{Rect, Region, MatchData}
use vcli.Perception.State.{Context}
use vcli.Perception.Evaluation.{verdict}
use vcli.Dsl.Watches.{strip_prefix}
use vcli.Perception.Crop.{RgbImage}
use vcli.Perception.Template.{
  GrayImage, Best, as_i32, haystack, is_smaller, box_at, evaluate_template, or_whole_name,
}

as_i32-exact : (n : ℕ) → n < 2 ^ 31 → as_i32 n ≡ pos n
as_i32-exact n h = ground arith

signed_32-residue_32 : (a : ℤ) → InI32 a → signed_32 (residue_32 a) ≡ a
signed_32-residue_32 (pos n) h = ground arith
signed_32-residue_32 (negsuc n) h = ground arith

-- Between two numbers of the range of i32 there is no overflow.
sum-InI32 : (a : ℤ) (n s : ℕ) → InI32 a → InI32 (a +ℤ pos s) → n ≤ s → InI32 (a +ℤ pos n)
unfolding ◌+ℤ◌
sum-InI32 (pos m) n s h k le = ground arith
sum-InI32 (negsuc m) n s h k le = ground arith

add_i32-exact : (a : ℤ) (n : ℕ) → InI32 (a +ℤ pos n) → add_i32 a (pos n) ≡ a +ℤ pos n
unfolding add_i32
add_i32-exact a n h = signed_32-residue_32 (a +ℤ pos n) h

from_start : (a : ℤ) (n : ℕ) → a ≤ℤ a +ℤ pos n
unfolding ◌+ℤ◌
from_start (pos m) n = ground arith
from_start (negsuc m) n = ground arith

to_end : (a : ℤ) (n u s : ℕ) → n + u ≤ s → a +ℤ pos n +ℤ pos u ≤ℤ a +ℤ pos s
unfolding ◌+ℤ◌
to_end (pos m) n u s h = ground arith
to_end (negsuc m) n u s h = ground arith

-- One axis of the box: its start is exact, and it lies in the span of the image.
axis :
    (o : ℤ) (l t s : ℕ)
    → InI32 o
    → InI32 (o +ℤ pos s)
    → s < 2 ^ 31
    → l + t ≤ s
    → (add_i32 o (as_i32 l) ≡ o +ℤ pos l)
      × (o ≤ℤ add_i32 o (as_i32 l))
      × (add_i32 o (as_i32 l) +ℤ as_i32 t ≤ℤ o +ℤ pos s)
axis o l t s h k small le =
    let exact : add_i32 o (as_i32 l) ≡ o +ℤ pos l =
      rw (as_i32-exact l (omega arith)) (add_i32-exact o l (sum-InI32 o l s h k (omega arith))) in
    (exact, rw exact (from_start o l), rw (exact, as_i32-exact t (omega arith)) (to_end o l t s le))

-- A box lies in the image that was searched, whose corner is at `x` and `y`.
pub record IsInside (box : Rect) (x y : ℤ) (image : RgbImage) : Type 0 where
  pub left : x ≤ℤ box.x
  pub right : box.x +ℤ box.w ≤ℤ x +ℤ pos image.width
  pub top : y ≤ℤ box.y
  pub bottom : box.y +ℤ box.h ≤ℤ y +ℤ pos image.height

-- An image whose right and lower edges have coordinates in the range of i32.
pub record HasRoom (x y : ℤ) (image : RgbImage) : Type 0 where
  pub left : InI32 x
  pub right : InI32 (x +ℤ pos image.width)
  pub width : image.width < 2 ^ 31
  pub top : InI32 y
  pub bottom : InI32 (y +ℤ pos image.height)
  pub height : image.height < 2 ^ 31

-- A place of the response map: the needle, laid there, does not stick out.
abbrev pub IsPlace : RgbImage → GrayImage → Best → Type 0
IsPlace image needle b = (b.x + needle.width ≤ image.width) × (b.y + needle.height ≤ image.height)

box_at-IsInside :
    (x y : ℤ) (b : Best) (needle : GrayImage) (image : RgbImage)
    → HasRoom x y image
    → IsPlace image needle b
    → IsInside (box_at x y b needle) x y image
unfolding box_at
box_at-IsInside x y b needle image room place =
    let across = axis x b.x needle.width image.width room.left room.right room.width place.0 in
    let down = axis y b.y needle.height image.height room.top room.bottom room.height place.1 in
    record { left = across.1; right = across.2; top = down.1; bottom = down.2 }

module _ (decode : List ℕ → Result String GrayImage) (best : RgbImage → GrayImage → Best)
    (below : ℕ → ℕ → Bool) where
  -- Where the image that is looked for is there and can be read, and the part of the screen that
  -- is searched has pixels and coordinates in the range of i32: if the largest response lies at a
  -- place of the response map whenever the needle is not larger than the searched image, then the
  -- answer is a verdict without a match, or a match whose box lies in the searched image.
  pub evaluate_template-IsInside :
      (ctx : Context) (name : String) (confidence : ℕ) (region : Region) (bytes : List ℕ)
      (needle : GrayImage) (image : RgbImage) (x y : ℤ)
      → lookup (or_whole_name name (strip_prefix "sha256:" name)) ctx.assets ≡ some bytes
      → decode bytes ≡ ok needle
      → haystack ctx region ≡ (some (ok image), x, y)
      → HasRoom x y image
      → (is_smaller image needle ≡ false → IsPlace image needle (best image needle))
      → (evaluate_template decode best below ctx name confidence region
          ≡ some (ok (verdict ctx false)))
        ⊎ (m : MatchData) × (evaluate_template decode best below ctx name confidence region
            ≡ some (ok (record { truthy = true; match_data = some m; at = ctx.now_ms })))
          × IsInside m.bbox x y image
  unfolding evaluate_template
  evaluate_template-IsInside ctx name confidence region bytes needle image x y h k l room place =
      let b = best image needle in
      elim (Bool-cases (is_smaller image needle)) [
        | inl e ↦ inl (rw (h, k, l, e) refl)
        | inr e ↦ elim (Bool-cases (below b.value confidence)) [
          | inl u ↦ inl (rw (h, k, l, e, u) refl)
          | inr u ↦ inr (
            record { bbox = box_at x y b needle; confidence = b.value },
            rw (h, k, l, e, u) refl,
            box_at-IsInside x y b needle image room (place e),
          )
        ]
      ]
