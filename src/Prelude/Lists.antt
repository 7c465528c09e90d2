-- ===== src/Prelude/Lists.antt =====
-- Lists measured and indexed by native numbers, and a predicate on every element.
use Prim.Native.Nat.{ℕ, zero, suc, ◌+◌}
use mathlib.Core.Path.{◌≡◌, refl, ap}
use mathlib.Core.Bool.{Bool, true, false}
use mathlib.Core.Option.{Option, none, some}
use mathlib.Core.List.{List, [], ◌∷◌, ◌++◌, map}
use native.Mathlib.Omega.{arith}
use vcli.Prelude.Tests.{if◌then◌else◌, ◌==◌, Bool-cases}
use mathlib.Core.Logic.{inl, inr}

module _ {ℓ} {A : Type ℓ} where
  abbrev pub length : List A → ℕ
  length [] = 0
  length (x ∷ xs) = suc (length xs)

  abbrev pub get_elem? : List A → ℕ → Option A
  get_elem? [] i = none
  get_elem? (x ∷ xs) zero = some x
  get_elem? (x ∷ xs) (suc i) = get_elem? xs i

  pub length-append : (xs ys : List A) → length (xs ++ ys) ≡ length xs + length ys
  length-append [] ys = omega arith
  length-append (x ∷ xs) ys = omega (arith, length-append xs ys)

  -- How many elements pass a test.
  abbrev pub count : (A → Bool) → List A → ℕ
  count p [] = 0
  count p (x ∷ xs) = if p x then suc (count p xs) else count p xs

  abbrev pub keep : (A → Bool) → List A → List A
  keep p [] = []
  keep p (x ∷ xs) = if p x then x ∷ keep p xs else keep p xs

  abbrev pub All {κ} : (A → Type κ) → List A → Type κ
  All P [] = Unit
  All P (x ∷ xs) = P x × All P xs

  pub All-append {κ} : (P : A → Type κ) (xs ys : List A) → All P xs → All P ys → All P (xs ++ ys)
  All-append P [] ys hx hy = hy
  All-append P (x ∷ xs) ys hx hy = (hx.0, All-append P xs ys hx.1 hy)

  -- A filter leaves elements of the list, and those pass it.
  pub All-keep {κ} : (P : A → Type κ) (p : A → Bool) (xs : List A) → All P xs → All P (keep p xs)
  All-keep P p [] h = tt
  All-keep P p (x ∷ xs) h = elim (Bool-cases (p x)) [
    | inl e ↦ rw e (h.0, All-keep P p xs h.1)
    | inr e ↦ rw e (All-keep P p xs h.1)
  ]

  pub keep-passes : (p : A → Bool) (xs : List A) → All (λ x. p x ≡ true) (keep p xs)
  keep-passes p [] = tt
  keep-passes p (x ∷ xs) = elim (Bool-cases (p x)) [
    | inl e ↦ rw e (e, keep-passes p xs)
    | inr e ↦ rw e (keep-passes p xs)
  ]

module _ {ℓ κ} {A : Type ℓ} {B : Type κ} where
  pub length-map : (f : A → B) (xs : List A) → length (map f xs) ≡ length xs
  length-map f [] = refl
  length-map f (x ∷ xs) = ap suc (length-map f xs)

module _ {ℓ κ ι μ} {A : Type ℓ} {P : A → Type κ} {Q : A → Type ι} {R : A → Type μ} where
  pub All-map₂ : (xs : List A) → ((x : A) → P x → Q x → R x) → All P xs → All Q xs → All R xs
  All-map₂ [] f hp hq = tt
  All-map₂ (x ∷ xs) f hp hq = (f x hp.0 hq.0, All-map₂ xs f hp.1 hq.1)

module _ {ℓ κ ι} {A : Type ℓ} {P : A → Type κ} {Q : A → Type ι} where
  pub All-map : (xs : List A) → ((x : A) → P x → Q x) → All P xs → All Q xs
  All-map [] f h = tt
  All-map (x ∷ xs) f h = (f x h.0, All-map xs f h.1)

-- No number is there twice.
abbrev pub Distinct : List ℕ → Type 0
Distinct [] = Unit {0}
Distinct (k ∷ ks) = All (λ j. (k == j) ≡ false) ks × Distinct ks
