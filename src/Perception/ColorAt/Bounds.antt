-- ===== src/Perception/ColorAt/Bounds.antt =====
-- Where a pixel lies in the buffer of a frame.
use vcli.Prelude.{
  ℕ, zero, suc, ◌+◌, ◌-◌, ◌*◌, ◌^◌, ◌≤◌, ◌<◌, ◌≡◌, refl, sym, subst, ◌⊎◌, inl, inr, true, false,
  ◌||◌, some, List, [], ◌∷◌, arith, Bool-cases, length, get_elem?, ok, err, ℤ, pos, pos_part, leb_ℤ,
  ltb_ℤ,
}
use native.Mathlib.Nat.{mul-le-mul_right, suc-mul}
use vcli.Core.Predicate.{Rgb, FrameFormat, bgra8, rgba8, Frame}
use vcli.Perception.State.{region_out_of_bounds}
use vcli.Perception.ColorAt.{pixel_rgb, rgb_of, is_outside, mul_usize, bytes_per_pixel}

-- What a capture gives: a row holds its pixels, and the buffer, which `usize` can index, its rows.
pub record IsFrame (frame : Frame) : Type 0 where
  pub width : ℕ
  pub height : ℕ
  pub w : frame.bounds.w ≡ pos width
  pub h : frame.bounds.h ≡ pos height
  pub row : 4 * width ≤ frame.stride
  pub buffer : height * frame.stride ≤ length frame.pixels
  pub indexed : length frame.pixels < 2 ^ 63

get_elem?-some {ℓ} :
    {A : Type ℓ} (xs : List A) (i : ℕ) → i < length xs → (x : A) × (get_elem? xs i ≡ some x)
get_elem?-some [] i h = absurd (omega (arith, h))
get_elem?-some (x ∷ xs) zero h = (x, refl)
get_elem?-some (x ∷ xs) (suc i) h = get_elem?-some xs i (omega (arith, h))

mul_usize-exact : (a b : ℕ) → a * b ≤ 2 ^ 64 - 1 → mul_usize a b ≡ a * b
mul_usize-exact a b h = ground arith

-- The four bytes of the pixel are in the buffer.
offset_bound :
    (x y width height stride size : ℕ)
    → x < width
    → y < height
    → 4 * width ≤ stride
    → height * stride ≤ size
    → size < 2 ^ 63
    → (mul_usize y stride + mul_usize x 4) + 3 < size
offset_bound x y width height stride size hx hy hr hb hs =
    let rows : suc y * stride ≤ height * stride = mul-le-mul_right stride (omega (arith, hy)) in
    let unrolled : suc y * stride ≡ y * stride + stride = suc-mul y stride in
    let down = mul_usize-exact y stride (omega (arith, rows, unrolled)) in
    let across = mul_usize-exact x 4 (omega (arith, rows, unrolled)) in
    omega (arith, rows, unrolled, down, across)

rgb_of-some :
    (format : FrameFormat) (p q r s : ℕ)
    → (c : Rgb) × (rgb_of format (some p) (some q) (some r) (some s) ≡ some c)
rgb_of-some bgra8 p q r s = (record { r = r; g = q; b = p }, refl)
rgb_of-some rgba8 p q r s = (record { r = p; g = q; b = r }, refl)

width_four : (format : FrameFormat) → bytes_per_pixel format ≡ 4
width_four bgra8 = refl
width_four rgba8 = refl

inside :
    (frame : Frame) (x y : ℤ) (f : IsFrame frame)
    → is_outside frame x y ≡ false
    → (pos_part x < f.width) × (pos_part y < f.height)
inside frame x y f e =
    let at : ((ltb_ℤ x (pos 0)
          || ltb_ℤ y (pos 0)
          || leb_ℤ (pos f.width) x
          || leb_ℤ (pos f.height) y)
        ≡ false) =
      subst
        (λ w. (ltb_ℤ x (pos 0) || ltb_ℤ y (pos 0) || leb_ℤ w x || leb_ℤ (pos f.height) y) ≡ false)
        f.w
        (subst
          (λ h. (ltb_ℤ x (pos 0) || ltb_ℤ y (pos 0) || leb_ℤ frame.bounds.w x || leb_ℤ h y) ≡ false)
          f.h e) in
    low x y f.width f.height at
  where
    low :
        (a b : ℤ) (w h : ℕ)
        → (ltb_ℤ a (pos 0) || ltb_ℤ b (pos 0) || leb_ℤ (pos w) a || leb_ℤ (pos h) b) ≡ false
        → (pos_part a < w) × (pos_part b < h)
    low a b w h g = (ground arith, ground arith)

-- The read of a pixel never leaves the buffer: at coordinates outside the frame it is the error of
-- the region, at all others a color.
pub pixel_rgb-IsFrame :
    (frame : Frame) (x y : ℤ)
    → IsFrame frame
    → (is_outside frame x y ≡ true) × (pixel_rgb frame x y ≡ some (err region_out_of_bounds))
      ⊎ (is_outside frame x y ≡ false) × (c : Rgb) × (pixel_rgb frame x y ≡ some (ok c))
unfolding pixel_rgb
pixel_rgb-IsFrame frame x y f = elim (Bool-cases (is_outside frame x y)) [
  | inl e ↦ inl (e, rw e refl)
  | inr e ↦
      let offset =
        mul_usize (pos_part y) frame.stride
        + mul_usize (pos_part x) (bytes_per_pixel frame.format) in
      let bound : offset + 3 < length frame.pixels =
        subst
          (λ b.
            mul_usize (pos_part y) frame.stride + mul_usize (pos_part x) b + 3
            < length frame.pixels)
          (sym (width_four frame.format))
          (offset_bound (pos_part x) (pos_part y) f.width f.height frame.stride
            (length frame.pixels) (inside frame x y f e).0 (inside frame x y f e).1 f.row f.buffer
            f.indexed) in
      let (p, hp) = get_elem?-some frame.pixels offset (omega (arith, bound)) in
      let (q, hq) = get_elem?-some frame.pixels (offset + 1) (omega (arith, bound)) in
      let (r, hr) = get_elem?-some frame.pixels (offset + 2) (omega (arith, bound)) in
      let (s, hs) = get_elem?-some frame.pixels (offset + 3) bound in
      let (c, hc) = rgb_of-some frame.format p q r s in inr (e, c, rw (e, hp, hq, hr, hs, hc) refl)
]
