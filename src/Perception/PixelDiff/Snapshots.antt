-- ===== src/Perception/PixelDiff/Snapshots.antt =====
-- crates/vcli-perception/src/pixel_diff.rs: which two pictures an evaluation compares.
use Prim.Native.Nat.{bit_xor, digits, differ, bit_xor-bitwise}
use vcli.Prelude.{
  ℕ, zero, suc, ◌/◌, ◌%◌, ◌≤◌, String, ◌≡◌, refl, ◌∙◌, Bool, false, some, arith, eq_refl,
  lookup-insert, ok,
}
use vcli.Core.Predicate.{Rect, Region}
use vcli.Perception.State.{Perception, PriorSnapshot, prior_snapshot, record_snapshot, Context}
use vcli.Perception.Evaluation.{verdict, and_then}
use vcli.Perception.Crop.{RgbImage, crop_rgb}
use vcli.Perception.PixelDiff.{ones, hamming, dhash, state_key, evaluate_pixel_diff}

differ_self : (x : ℕ) → differ x x ≡ 0
differ_self zero = refl
differ_self (suc x) = differ_self x

digits_self : (n a : ℕ) → a ≤ n → digits (λ b. b) differ n a a ≡ 0
digits_self zero zero h = refl
digits_self (suc n) zero h = refl
digits_self zero (suc a) h = absurd (omega arith)
digits_self (suc n) (suc a) h =
    omega (arith, digits_self n (suc a / 2) (omega arith), differ_self (suc a % 2))

bit_xor_self : (a : ℕ) → bit_xor a a ≡ 0
bit_xor_self a = bit_xor-bitwise a a ∙ digits_self a a (omega arith)

ones_zero : (n : ℕ) → ones n 0 ≡ 0
unfolding ones
ones_zero zero = refl
ones_zero (suc n) = omega (arith, ones_zero n)

hamming_self : (a : ℕ) → hamming a a ≡ 0
unfolding hamming
hamming_self a = rw (bit_xor_self a) (ones_zero 64)

prior_snapshot-record_snapshot :
    (p : Perception) (key : String) (s : PriorSnapshot)
    → prior_snapshot (record_snapshot p key s) key ≡ some s
unfolding prior_snapshot record_snapshot
prior_snapshot-record_snapshot p key s =
    rw (lookup-insert key key s p.prior_snapshots, eq_refl key) refl

module _ (nfc : String → String) (format : ℕ → String) (thumbnail : RgbImage → ℕ → ℕ → ℕ)
    (reaches : ℕ → ℕ → Bool) where
  -- Two evaluations of one region under one baseline: where the key of the region has a hash and
  -- both frames have pixels of the region, the second one compares the picture that it sees with
  -- the picture that the first one saw, whatever was recorded before and whatever the first
  -- threshold is.
  pub evaluate_pixel_diff-compares :
      (before ctx : Context) (rect : Rect) (baseline : String) (first second : ℕ) (p : Perception)
      (key : String) (old new : RgbImage)
      → state_key nfc format baseline rect ≡ some (ok key)
      → crop_rgb before.frame rect ≡ some (ok old)
      → crop_rgb ctx.frame rect ≡ some (ok new)
      → (q : Perception) × (and_then
            (evaluate_pixel_diff nfc format thumbnail reaches before
              (Region.absolute rect)
              baseline
              first
              p)
            (λ r s.
              evaluate_pixel_diff nfc format thumbnail reaches ctx
                (Region.absolute rect)
                baseline
                second
                s)
          ≡ some (
            ok (verdict ctx (reaches (hamming (dhash thumbnail new) (dhash thumbnail old)) second)),
            q,
          ))
  unfolding evaluate_pixel_diff
  evaluate_pixel_diff-compares before ctx rect baseline first second p key old new h k l = (
    record_snapshot
        (record_snapshot p key (record { dhash = dhash thumbnail old; at_ms = before.now_ms })) key
        (record { dhash = dhash thumbnail new; at_ms = ctx.now_ms }),
    rw (h, k, l, prior_snapshot-record_snapshot p key _) refl,
  )

  -- Two predicates that watch one region under one baseline share the snapshot: when both are
  -- evaluated on one frame, the second compares the frame with itself and is false at every
  -- threshold above zero, whatever has changed since the last frame.
  pub evaluate_pixel_diff-blind :
      (ctx : Context) (rect : Rect) (baseline : String) (first second : ℕ) (p : Perception)
      (key : String) (image : RgbImage)
      → state_key nfc format baseline rect ≡ some (ok key)
      → crop_rgb ctx.frame rect ≡ some (ok image)
      → reaches 0 second ≡ false
      → (q : Perception) × (and_then
            (evaluate_pixel_diff nfc format thumbnail reaches ctx
              (Region.absolute rect)
              baseline
              first
              p)
            (λ r s.
              evaluate_pixel_diff nfc format thumbnail reaches ctx
                (Region.absolute rect)
                baseline
                second
                s)
          ≡ some (ok (verdict ctx false), q))
  evaluate_pixel_diff-blind ctx rect baseline first second p key image h k positive =
      let (q, e) =
        evaluate_pixel_diff-compares ctx ctx rect baseline first second p key image image h k k in
      (q, e ∙ rw (hamming_self (dhash thumbnail image), positive) refl)
