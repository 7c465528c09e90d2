-- ===== src/Core/Predicate.antt =====
-- crates/vcli-core/src/geom.rs, region.rs, predicate.rs and frame.rs: what a program looks for on
-- the screen. An `f64` is its 64-bit pattern, an `i32` an integer.
use vcli.Prelude.{ℕ, String, Bool, Option, List, ℤ}

pub record Point : Type 0 where
  pub x : ℤ
  pub y : ℤ

pub record Rect : Type 0 where
  pub x : ℤ
  pub y : ℤ
  pub w : ℤ
  pub h : ℤ

pub record Size : Type 0 where
  pub w : ℤ
  pub h : ℤ

pub data Anchor : Type 0 where
  match_anchor : Anchor

pub data Region : Type 0 where
  absolute : Rect → Region
  window : String → Option String → Option ℕ → Region
  relative_to : String → Anchor → Point → Option Size → Region

pub record Rgb : Type 0 where
  pub r : ℕ
  pub g : ℕ
  pub b : ℕ

-- In order: image, confidence, region, throttle_ms; point, rgb, tolerance; region, baseline,
-- threshold; and the names of the predicates that a logical or temporal predicate reads.
pub data PredicateKind : Type 0 where
  template : String → ℕ → Region → ℕ → PredicateKind
  color_at : Point → Rgb → ℕ → PredicateKind
  pixel_diff : Region → String → ℕ → PredicateKind
  all_of any_of : List String → PredicateKind
  not_of : String → PredicateKind
  elapsed_ms_since_true : String → ℕ → PredicateKind

pub record MatchData : Type 0 where
  pub bbox : Rect
  pub confidence : ℕ

pub record PredicateResult : Type 0 where
  pub truthy : Bool
  pub match_data : Option MatchData
  pub at : ℤ

pub data FrameFormat : Type 0 where
  bgra8 rgba8 : FrameFormat

pub record Frame : Type 0 where
  pub format : FrameFormat
  pub bounds : Rect
  pub stride : ℕ
  pub pixels : List ℕ
  pub captured_at_ns : ℕ
