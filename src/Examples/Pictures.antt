-- ===== src/Examples/Pictures.antt =====
-- crates/vcli-perception/src/{frame_view,pixel_diff}.rs on frames of two pixels.
use vcli.Core.Canonical.{escape_all}
use vcli.Perception.ColorAt.{pixel_rgb}
use vcli.Prelude.{
  ◌+ℤ◌, Result, ltb, true, false, str_lt, lookup, decimal, ℕ, zero, suc, String, ◌≡◌, refl, ◌⊎◌,
  Bool, none, some, List, [], ◌∷◌, arith, ok, err, pos,
}
use vcli.Core.Predicate.{MatchData, Rect, Rgb, Region, bgra8, Frame}
use vcli.Perception.State.{Perception, fresh, region_out_of_bounds, Context}
use vcli.Perception.Evaluation.{and_then, verdict}
use vcli.Perception.ColorAt.Bounds.{IsFrame}
use vcli.Perception.Crop.{RgbImage, crop_rgb}
use vcli.Dsl.Watches.{strip_prefix}
use vcli.Perception.Template.{GrayImage, Best, or_whole_name, haystack, evaluate_template}
use vcli.Perception.Template.Places.{HasRoom, IsInside, evaluate_template-IsInside}
use vcli.Perception.Crop.Copying.{IsFilled, crop_rgb-answers}
use vcli.Perception.PixelDiff.{dhash, hamming, state_key, evaluate_pixel_diff}
use vcli.Perception.PixelDiff.Snapshots.{evaluate_pixel_diff-compares, evaluate_pixel_diff-blind}

-- Two pixels, the first of which has the blue `n`.
abbrev picture : ℕ → Frame
picture n = record {
  format = bgra8;
  bounds = record { x = pos 0; y = pos 0; w = pos 2; h = pos 1 };
  stride = 8;
  pixels = n ∷ 0 ∷ 0 ∷ 255 ∷ 5 ∷ 0 ∷ 0 ∷ 255 ∷ [];
  captured_at_ns = 0;
}

picture-IsFrame : (n : ℕ) → IsFrame (picture n)
picture-IsFrame n = record {
  width = 2;
  height = 1;
  w = refl;
  h = refl;
  row = omega arith;
  buffer = omega arith;
  indexed = omega arith;
}

abbrev wide : Rect
wide = record { x = pos 0; y = pos 0; w = pos 9; h = pos 9 }

abbrev cut : ℕ → RgbImage
cut n = record {
  width = 2;
  height = 1;
  rows = (record { r = 0; g = 0; b = n } ∷ record { r = 0; g = 0; b = 5 } ∷ []) ∷ [];
}

-- The part of the region that lies on the frame.
crop_rgb-cut : (n : ℕ) → crop_rgb (picture n) wide ≡ some (ok (cut n))
unfolding crop_rgb pixel_rgb
crop_rgb-cut n = refl

-- A resample of the brightness of the first pixel, which only the first column sees.
abbrev first_column : RgbImage → ℕ → ℕ → ℕ
first_column image zero y = blue image.rows
  where
    blue : List (List Rgb) → ℕ
    blue ((c ∷ cells) ∷ rows) = c.b
    blue _ = 0
first_column image (suc x) y = 1

abbrev plain_text : String → String
plain_text s = s

abbrev no_number : ℕ → String
no_number bits = "?"

abbrev some_bits : ℕ → ℕ → Bool
some_bits distance threshold = ltb 0 distance

abbrev at_frame : ℕ → Context
at_frame n = record {
  predicates = [];
  frame = picture n;
  now_ms = pos n;
  assets = [];
  program = none;
}

abbrev wide_key : String
wide_key = "b481f02e8a2641b2016699c4927287534b931fd41e6b8488f38822375fd0cc7a"

wide_key_known : state_key plain_text no_number "start" wide ≡ some (ok wide_key)
unfolding state_key str_lt lookup escape_all decimal
wide_key_known = refl

moved_bits : hamming (dhash first_column (cut 9)) (dhash first_column (cut 0)) ≡ 8
unfolding hamming dhash
moved_bits = refl

crop_rgb-answers_example :
    (crop_rgb (picture 3) wide ≡ some (err region_out_of_bounds))
    ⊎ (image : RgbImage) × (crop_rgb (picture 3) wide ≡ some (ok image)) × IsFilled image
crop_rgb-answers_example = crop_rgb-answers (picture 3) wide (picture-IsFrame 3)

evaluate_pixel_diff-compares_example :
    (q : Perception) × (and_then
        (evaluate_pixel_diff plain_text no_number first_column some_bits
          (at_frame 0)
          (Region.absolute wide)
          "start"
          1
          fresh)
        (λ r s.
          evaluate_pixel_diff plain_text no_number first_column some_bits
            (at_frame 9)
            (Region.absolute wide)
            "start"
            2
            s)
      ≡ some (
        ok (
            verdict
              (at_frame 9)
              (some_bits (hamming (dhash first_column (cut 9)) (dhash first_column (cut 0))) 2)),
        q,
      ))
evaluate_pixel_diff-compares_example =
    evaluate_pixel_diff-compares plain_text no_number first_column some_bits (at_frame 0)
      (at_frame 9) wide "start" 1 2 fresh wide_key (cut 0) (cut 9) wide_key_known (crop_rgb-cut 0)
      (crop_rgb-cut 9)

evaluate_pixel_diff-blind_example :
    (q : Perception) × (and_then
        (evaluate_pixel_diff plain_text no_number first_column some_bits
          (at_frame 9)
          (Region.absolute wide)
          "start"
          1
          fresh)
        (λ r s.
          evaluate_pixel_diff plain_text no_number first_column some_bits
            (at_frame 9)
            (Region.absolute wide)
            "start"
            2
            s)
      ≡ some (ok (verdict (at_frame 9) false), q))
evaluate_pixel_diff-blind_example =
    evaluate_pixel_diff-blind plain_text no_number first_column some_bits (at_frame 9) wide "start"
      1 2 fresh wide_key (cut 9) wide_key_known (crop_rgb-cut 9) refl

abbrev dot : GrayImage
dot = record { width = 1; height = 1; luma = 9 ∷ [] }

abbrev as_dot : List ℕ → Result String GrayImage
as_dot bytes = ok dot

abbrev in_corner : RgbImage → GrayImage → Best
in_corner image needle = record { value = 7; x = 1; y = 0 }

abbrev with_dot : Context
with_dot = record (at_frame 9) { assets = ("abc", 1 ∷ []) ∷ [] }

dot_stored :
    lookup (or_whole_name "sha256:abc" (strip_prefix "sha256:" "sha256:abc")) with_dot.assets
    ≡ some (1 ∷ [])
unfolding lookup
dot_stored = refl

searched_cut : haystack with_dot (Region.absolute wide) ≡ (some (ok (cut 9)), pos 0, pos 0)
unfolding haystack pixel_rgb
searched_cut = refl

cut-HasRoom : HasRoom (pos 0) (pos 0) (cut 9)
unfolding ◌+ℤ◌
cut-HasRoom = record {
  left = omega arith;
  right = omega arith;
  width = omega arith;
  top = omega arith;
  bottom = omega arith;
  height = omega arith;
}

evaluate_template-IsInside_example :
    (evaluate_template as_dot in_corner ltb with_dot "sha256:abc" 5 (Region.absolute wide)
      ≡ some (ok (verdict with_dot false)))
    ⊎ (m : MatchData) × (evaluate_template as_dot in_corner ltb with_dot "sha256:abc" 5
          (Region.absolute wide)
        ≡ some (ok (record { truthy = true; match_data = some m; at = pos 9 })))
      × IsInside m.bbox (pos 0) (pos 0) (cut 9)
evaluate_template-IsInside_example =
    evaluate_template-IsInside as_dot in_corner ltb with_dot "sha256:abc" 5 (Region.absolute wide)
      (1 ∷ []) dot (cut 9) (pos 0) (pos 0) dot_stored refl searched_cut cut-HasRoom
      (λ e. (omega arith, omega arith))
