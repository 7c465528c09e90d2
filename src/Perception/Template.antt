-- ===== src/Perception/Template.antt =====
-- crates/vcli-perception/src/template.rs. What the image libraries answer is given: `decode` is
-- `load_from_memory` with `to_luma8`, `best` the largest value of the response map (as the bits of
-- an f64) with its place, and `below` the order of f64 numbers.
use vcli.Prelude.{
  ℕ, ◌%◌, ◌^◌, String, Bool, true, false, ◌||◌, Option, none, some, List, ltb, if◌then◌else◌,
  lookup, Result, ok, err, ℤ, add_i32,
}
use vcli.Prelude.{signed_32}
use vcli.Core.Predicate.{Rect, Region, PredicateResult}
use vcli.Perception.State.{asset_decode, asset_not_materialized, Context}
use vcli.Perception.Evaluation.{verdict}
use vcli.Perception.Crop.{RgbImage, Reads, max_ℤ, crop_rgb, frame_to_rgb}
use vcli.Dsl.Watches.{strip_prefix}
pub mod Places

pub record GrayImage : Type 0 where
  pub width : ℕ
  pub height : ℕ
  pub luma : List ℕ

pub record Best : Type 0 where
  pub value : ℕ
  pub x : ℕ
  pub y : ℕ

abbrev pub or_whole_name : String → Option String → String
or_whole_name name none = name
or_whole_name name (some rest) = rest

-- `n as i32` of a u32.
abbrev pub as_i32 : ℕ → ℤ
as_i32 n = signed_32 (n % 2 ^ 32)

-- The image that is searched, and the place of its corner on the screen.
unfoldable pub haystack : Context → Region → Reads RgbImage × ℤ × ℤ
unfolding crop_rgb frame_to_rgb
haystack ctx (Region.absolute rect) =
    (crop_rgb ctx.frame rect, max_ℤ rect.x ctx.frame.bounds.x, max_ℤ rect.y ctx.frame.bounds.y)
haystack ctx _ = (frame_to_rgb ctx.frame, ctx.frame.bounds.x, ctx.frame.bounds.y)

abbrev pub is_smaller : RgbImage → GrayImage → Bool
is_smaller image needle = ltb image.width needle.width || ltb image.height needle.height

unfoldable pub box_at : ℤ → ℤ → Best → GrayImage → Rect
unfolding add_i32
box_at x y b needle = record {
  x = add_i32 x (as_i32 b.x);
  y = add_i32 y (as_i32 b.y);
  w = as_i32 needle.width;
  h = as_i32 needle.height;
}

module _ (decode : List ℕ → Result String GrayImage) (best : RgbImage → GrayImage → Best)
    (below : ℕ → ℕ → Bool) where
  abbrev pub matched : Context → ℕ → GrayImage → RgbImage → ℤ → ℤ → PredicateResult
  matched ctx confidence needle image x y =
      let b = best image needle in
      if is_smaller image needle
      then verdict ctx false
      else if below b.value confidence
      then verdict ctx false
      else record {
        truthy = true;
        match_data = some (record { bbox = box_at x y b needle; confidence = b.value });
        at = ctx.now_ms;
      }

  abbrev pub searched : Context → ℕ → GrayImage → Reads RgbImage × ℤ × ℤ → Reads PredicateResult
  searched ctx confidence needle (none, x, y) = none
  searched ctx confidence needle (some (err e), x, y) = some (err e)
  searched ctx confidence needle (some (ok image), x, y) =
      some (ok (matched ctx confidence needle image x y))

  abbrev pub decoded : Context → ℕ → Region → Result String GrayImage → Reads PredicateResult
  decoded ctx confidence region (err message) = some (err (asset_decode message))
  decoded ctx confidence region (ok needle) = searched ctx confidence needle (haystack ctx region)

  abbrev pub with_bytes : Context → String → ℕ → Region → Option (List ℕ) → Reads PredicateResult
  with_bytes ctx image confidence region none = some (err (asset_not_materialized image))
  with_bytes ctx image confidence region (some bytes) = decoded ctx confidence region (decode bytes)

  -- `TemplateEvaluator::evaluate` on the fields of a `template`.
  unfoldable pub evaluate_template : Context → String → ℕ → Region → Reads PredicateResult
  unfolding lookup haystack box_at
  evaluate_template ctx image confidence region =
      with_bytes ctx image confidence region
        (lookup (or_whole_name image (strip_prefix "sha256:" image)) ctx.assets)
