-- ===== src/Dsl/Predicates/Weights.antt =====
-- The count of what is left of the search of crates/vcli-dsl/src/predicates.rs: two for each white
-- name and one for each edge of it, and what is left of the frames on the stack.
use vcli.Prelude.{
  ℕ, suc, ◌+◌, ◌≤◌, ◌<◌, String, ◌≡◌, refl, subst, inl, inr, true, ◌||◌, Option, none, some, [],
  ◌∷◌, arith, str_eq, eq_iff, eq_refl, Bool-cases, length, Dict, lookup, insert, lookup-insert,
}
use vcli.Core.Predicate.{PredicateKind}
use vcli.Dsl.Predicates.{
  names_of, contains, Color, white, gray, black, Stack, enough, edges_at, edges_of,
}

abbrev pub share : PredicateKind → Option Color → ℕ
share p (some white) = 2 + length (edges_of p)
share p _ = 0

abbrev pub weight : Dict Color → Dict PredicateKind → ℕ
weight color [] = 0
weight color ((k, p) ∷ rest) = share p (lookup k color) + weight color rest

abbrev pub stack_weight : Stack → ℕ
stack_weight [] = 0
stack_weight ((n, rest) ∷ stack) = suc (length rest) + stack_weight stack

pub share-insert :
    (color : Dict Color) (k j : String) (v : Color) (p : PredicateKind)
    → share p (some v) ≡ 0
    → share p (lookup j (insert k v color)) ≤ share p (lookup j color)
share-insert color k j v p dark = elim (Bool-cases (str_eq k j)) [
  | inl same ↦ rw (lookup-insert k j v color, same, dark) (omega arith)
  | inr other ↦ rw (lookup-insert k j v color, other) (omega arith)
]

pub weight-insert :
    (color : Dict Color) (k : String) (v : Color) (m : Dict PredicateKind)
    → ((p : PredicateKind) → share p (some v) ≡ 0)
    → weight (insert k v color) m ≤ weight color m
weight-insert color k v [] dark = omega arith
weight-insert color k v ((j, p) ∷ m) dark =
    omega (arith, share-insert color k j v p (dark p), weight-insert color k v m dark)

-- A white name of the map that turns gray pays for its frame and for the end of it.
pub weight-gray :
    (color : Dict Color) (k : String) (m : Dict PredicateKind)
    → contains (names_of m) k ≡ true
    → lookup k color ≡ some white
    → weight (insert k gray color) m + (2 + length (edges_at (lookup k m))) ≤ weight color m
unfolding lookup
weight-gray color k [] there is_white = cc there
weight-gray color k ((j, p) ∷ m) there is_white = elim (Bool-cases (str_eq j k)) [
  | inl same ↦
      let e : j ≡ k = (eq_iff j k).0 same in
      let was : share p (lookup j color) ≡ 2 + length (edges_of p) = rw (e, is_white) refl in
      let now : share p (lookup j (insert k gray color)) ≡ 0 =
        rw (lookup-insert k j gray color, e, eq_refl k) refl in
      rw same (omega (arith, was, now, weight-insert color k gray m (λ q. refl)))
  | inr other ↦
      let rest : contains (names_of m) k ≡ true =
        subst (λ b. (b || contains (names_of m) k) ≡ true) other there in
      rw other
        (omega (arith, share-insert color k j gray p refl, weight-gray color k m rest is_white))
]

pub all_white-weight : (m : Dict PredicateKind) (color : Dict Color) → weight color m < enough m
all_white-weight [] color = omega arith
all_white-weight ((k, p) ∷ m) color =
    omega (arith, share-le p (lookup k color), all_white-weight m color)
  where
    share-le : (p : PredicateKind) (c : Option Color) → share p c ≤ 2 + length (edges_of p)
    share-le p none = omega arith
    share-le p (some white) = omega arith
    share-le p (some gray) = omega arith
    share-le p (some black) = omega arith
