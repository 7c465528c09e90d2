-- ===== src/Perception/PixelDiff.antt =====
-- crates/vcli-perception/src/pixel_diff.rs. What the image library answers is given: `thumbnail` is
-- the brightness at a place of the 9 by 8 grayscale resample, and `reaches d t` says that the f64
-- d / 64.0 is at least the threshold with the bits t.
use Prim.Native.Nat.{bit_xor}
use vcli.Prelude.{
  ℕ, zero, suc, ◌+◌, ◌*◌, ◌/◌, ◌%◌, ◌^◌, String, str_append, Bool, false, Option, none, some, ltb,
  if◌then◌else◌, count, ok, err, ℤ,
}
use vcli.Core.Predicate.{Rect, Region, PredicateResult, pixel_diff}
use vcli.Core.Canonical.{
  Value, Written, number, string, array, object, value, done, member, end, CanonicalError, io,
}
use vcli.Core.Sha256.{predicate_hash}
use vcli.Perception.State.{
  Perception, asset_decode, PriorSnapshot, prior_snapshot, record_snapshot, Context,
}
use vcli.Perception.Evaluation.{Out, verdict}
use vcli.Perception.Crop.{RgbImage, Reads, crop_rgb}
pub mod Snapshots

-- The ones among the lowest `n` bits.
unfoldable pub ones : ℕ → ℕ → ℕ
ones zero x = 0
ones (suc n) x = x % 2 + ones n (x / 2)

abbrev pub count_ones : ℕ → ℕ
count_ones x = ones 64 x

unfoldable pub hamming : ℕ → ℕ → ℕ
unfolding ones
hamming a b = count_ones (bit_xor a b)

abbrev pub integer : ℤ → Value
integer i = number (record { as_i64 = some i; as_u64 = none; as_f64 = none })

-- The `json!` of the key that a region is remembered by.
abbrev pub key_value : String → Rect → Value
key_value baseline rect = object (
    member "kind" (string "pixel_diff_state") (
      member "baseline" (string baseline) (
        member "rect"
          (array (
            value (integer rect.x)
              (value (integer rect.y) (value (integer rect.w) (value (integer rect.h) done)))))
          end)))

abbrev pub describe_io : CanonicalError → String
describe_io (io message) = str_append "io error: " message

module _ (thumbnail : RgbImage → ℕ → ℕ → ℕ) where
  -- The bits of `count` places of row `y` from column `x` on, shifted into `h`.
  unfoldable pub row_bits : RgbImage → ℕ → ℕ → ℕ → ℕ → ℕ
  row_bits image y zero x h = h
  row_bits image y (suc count) x h =
      let bit = if ltb (thumbnail image (x + 1) y) (thumbnail image x y) then 1 else 0 in
      row_bits image y count (suc x) (h * 2 % 2 ^ 64 + bit)

  unfoldable pub all_bits : RgbImage → ℕ → ℕ → ℕ → ℕ
  unfolding row_bits
  all_bits image zero y h = h
  all_bits image (suc count) y h = all_bits image count (suc y) (row_bits image y 8 0 h)

  -- `dhash` of the grayscale of an image.
  unfoldable pub dhash : RgbImage → ℕ
  unfolding all_bits
  dhash image = all_bits image 8 0 0

module _ (nfc : String → String) (format : ℕ → String) where
  -- The key is computed twice, by `canonicalize` and by `predicate_hash`, which fail alike.
  unfoldable pub state_key : String → Rect → Written
  unfolding predicate_hash
  state_key baseline rect = predicate_hash nfc format (key_value baseline rect)

module _ (reaches : ℕ → ℕ → Bool) where
  abbrev pub compared : Context → ℕ → ℕ → Option PriorSnapshot → PredicateResult
  compared ctx threshold current none = verdict ctx false
  compared ctx threshold current (some previous) =
      verdict ctx (reaches (hamming current previous.dhash) threshold)

  -- The hash of the region is recorded, and compared with the one that was there.
  abbrev pub with_hash : Context → ℕ → String → ℕ → Perception → Out
  with_hash ctx threshold key current p = some (
    ok (compared ctx threshold current (prior_snapshot p key)),
    record_snapshot p key (record { dhash = current; at_ms = ctx.now_ms }),
  )

module _ (nfc : String → String) (format : ℕ → String) (thumbnail : RgbImage → ℕ → ℕ → ℕ)
    (reaches : ℕ → ℕ → Bool) where
  abbrev pub with_crop : Context → ℕ → String → Reads RgbImage → Perception → Out
  with_crop ctx threshold key none p = none
  with_crop ctx threshold key (some (err e)) p = some (err e, p)
  with_crop ctx threshold key (some (ok image)) p =
      with_hash reaches ctx threshold key (dhash thumbnail image) p

  abbrev pub with_key : Context → Rect → ℕ → Written → Perception → Out
  with_key ctx rect threshold none p = none
  with_key ctx rect threshold (some (err e)) p =
      some (err (asset_decode (str_append "canonicalize pixel_diff key: " (describe_io e))), p)
  with_key ctx rect threshold (some (ok key)) p =
      with_crop ctx threshold key (crop_rgb ctx.frame rect) p

  -- `PixelDiffEvaluator::evaluate` on the fields of a `pixel_diff`.
  unfoldable pub evaluate_pixel_diff : Context → Region → String → ℕ → Perception → Out
  unfolding state_key dhash hamming crop_rgb prior_snapshot record_snapshot
  evaluate_pixel_diff ctx (Region.absolute rect) baseline threshold p =
      with_key ctx rect threshold (state_key nfc format baseline rect) p
  evaluate_pixel_diff ctx _ baseline threshold p = some (ok (verdict ctx false), p)
