-- ===== src/Dsl/Predicates/Termination.antt =====
-- The search of crates/vcli-dsl/src/predicates.rs ends, and never asks for a color that is not
-- there: the rounds that are left are counted by the white names and by the edges on the stack.
use vcli.Prelude.{
  ℕ, zero, suc, ◌+◌, ◌≤◌, ◌<◌, String, ◌≡◌, refl, subst, inl, inr, true, ◌||◌, Option, none, some,
  List, [], ◌∷◌, arith, str_eq, Bool-cases, All, Dict, lookup, insert, lookup-insert, Result, ok,
  err,
}
use vcli.Core.Predicate.{PredicateKind}
use vcli.Dsl.Error.{DslError, Checked}
use vcli.Dsl.Predicates.{
  names_of, contains, Color, white, gray, black, Stack, Search, Round, again, finished, rejected,
  panicked, follow, look_at, round, visit, start_at, visit_all, all_white, enough,
  validate_predicate_graph, validate_predicate_shape,
}
use vcli.Dsl.Predicates.Names.{contains_all}
use vcli.Dsl.Predicates.Weights.{weight, stack_weight, weight-insert, weight-gray, all_white-weight}

module _ (predicates : Dict PredicateKind) where
  abbrev measure : Search → ℕ
  measure s = weight s.color predicates + stack_weight s.stack

  -- Every name has a color.
  abbrev Painted : Dict Color → Type 0
  Painted color =
      (x : String)
      → contains (names_of predicates) x ≡ true
      → (c : Color) × (lookup x color ≡ some c)

  insert-Painted :
      (color : Dict Color) (k : String) (v : Color) → Painted color → Painted (insert k v color)
  insert-Painted color k v h x there = elim (Bool-cases (str_eq k x)) [
    | inl same ↦ (v, rw (lookup-insert k x v color, same) refl)
    | inr other ↦ ((h x there).0, rw (lookup-insert k x v color, other) ((h x there).1))
  ]

  -- A round goes on with less left, or answers.
  abbrev Falls : Search → Round → Type 0
  Falls s (again t) =
      Painted t.color
      × (measure t < measure s)
      × (weight t.color predicates ≤ weight s.color predicates)
  Falls s (finished color) = Painted color × (weight color predicates ≤ weight s.color predicates)
  Falls s (rejected e) = Unit {0}
  Falls s panicked = ⊥

  look_at-Falls :
      (color : Dict Color) (path : List String) (stack : Stack)
      → Painted color
      → Falls
          (record { color = color; stack = stack; path = path })
          (look_at predicates color path stack)
  look_at-Falls color path [] h = (h, omega arith)
  look_at-Falls color path ((cur, []) ∷ stack) h = (
    insert-Painted color cur black h,
    omega (arith, weight-insert color cur black predicates (λ q. refl)),
    weight-insert color cur black predicates (λ q. refl),
  )
  look_at-Falls color path ((cur, next ∷ rest) ∷ stack) h =
      elim (Bool-cases (contains (names_of predicates) next)) [
        | inr no_key ↦ rw no_key (h, omega arith, omega arith)
        | inl is_key ↦ rw is_key (by_color is_key (lookup next color) refl (h next is_key))
      ]
    where
      whole : Search
      whole = record { color = color; stack = (cur, next ∷ rest) ∷ stack; path = path }

      by_color :
          contains (names_of predicates) next ≡ true
          → (c : Option Color) → lookup next color ≡ c
          → (d : Color) × (lookup next color ≡ some d)
          → Falls whole (
              follow predicates next
                (record { color = color; stack = (cur, rest) ∷ stack; path = path })
                c)
      by_color is_key none e d = cc (e, d.1)
      by_color is_key (some white) e d = (
        insert-Painted color next gray h,
        omega (arith, weight-gray color next predicates is_key e),
        omega (arith, weight-gray color next predicates is_key e),
      )
      by_color is_key (some gray) e d = tt
      by_color is_key (some black) e d = (h, omega arith, omega arith)

  -- An answer, with a color for every name and no more white names than before.
  abbrev Answers : Dict Color → Option (Result DslError (Dict Color)) → Type 0
  Answers before none = ⊥
  Answers before (some (err e)) = Unit {0}
  Answers before (some (ok color)) =
      Painted color × (weight color predicates ≤ weight before predicates)

  visit-Answers :
      (fuel : ℕ) (s : Search)
      → Painted s.color
      → measure s < fuel
      → Answers s.color (visit predicates fuel s)
  unfolding visit round
  visit-Answers zero s h low = absurd (omega (arith, low))
  visit-Answers (suc fuel) s h low =
      by_round (look_at predicates s.color s.path s.stack) (look_at-Falls s.color s.path s.stack h)
        (λ t painted less. visit-Answers fuel t painted (omega (arith, less, low)))
    where
      by_round :
          (r : Round)
          → Falls s r
          → ((t : Search)
              → Painted t.color
              → measure t < measure s
              → Answers t.color (visit predicates fuel t))
          → Answers s.color (elim r [
            | again t ↦ visit predicates fuel t
            | finished c ↦ some (ok c)
            | rejected x ↦ some (err x)
            | panicked ↦ none
          ])
      by_round (again t) f next = weaken t.color (visit predicates fuel t) f.2 (next t f.0 f.1)
        where
          weaken :
              (c : Dict Color) (v : Option (Result DslError (Dict Color)))
              → weight c predicates ≤ weight s.color predicates
              → Answers c v
              → Answers s.color v
          weaken c none low a = a
          weaken c (some (err x)) low a = tt
          weaken c (some (ok d)) low a = (a.0, omega (arith, low, a.1))
      by_round (finished c) f next = f
      by_round (rejected x) f next = tt
      by_round panicked f next = absurd f

  start_at-low :
      (start : String) (color : Dict Color)
      → contains (names_of predicates) start ≡ true
      → lookup start color ≡ some white
      → (measure (start_at predicates start color) < weight color predicates)
        × (weight (insert start gray color) predicates ≤ weight color predicates)
  start_at-low start color is_key is_white =
      let paid = weight-gray color start predicates is_key is_white in
      (omega (arith, paid), omega (arith, paid))

  abbrev Answered : Option Checked → Type 0
  Answered o = (c : Checked) × (o ≡ some c)

  visit_all-answers :
      (fuel : ℕ) (starts : List String) (color : Dict Color)
      → All (λ n. contains (names_of predicates) n ≡ true) starts
      → Painted color
      → weight color predicates ≤ fuel
      → Answered (visit_all predicates fuel starts color)
  unfolding visit_all
  visit_all-answers fuel [] color there h low = (ok tt, refl)
  visit_all-answers fuel (start ∷ starts) color there h low =
      by_color (lookup start color) refl (h start there.0)
        (λ c painted less. visit_all-answers fuel starts c there.1 painted less)
    where
      Later : Type 0
      Later =
          (c : Dict Color)
          → Painted c
          → weight c predicates ≤ fuel
          → Answered (visit_all predicates fuel starts c)

      after_visit :
          (v : Option (Result DslError (Dict Color)))
          → Answers (insert start gray color) v
          → weight (insert start gray color) predicates ≤ fuel
          → Later
          → Answered (elim v [
            | none ↦ none
            | some (err x) ↦ some (err x)
            | some (ok c) ↦ visit_all predicates fuel starts c
          ])
      after_visit none a less later = absurd a
      after_visit (some (err x)) a less later = (err x, refl)
      after_visit (some (ok c)) a less later = later c a.0 (omega (arith, a.1, less))

      by_color :
          (c : Option Color)
          → lookup start color ≡ c
          → (d : Color) × (lookup start color ≡ some d)
          → Later
          → Answered (elim c [
            | none ↦ none
            | some white ↦ elim (visit predicates fuel (start_at predicates start color)) [
              | none ↦ none
              | some (err x) ↦ some (err x)
              | some (ok c') ↦ visit_all predicates fuel starts c'
            ]
            | some _ ↦ visit_all predicates fuel starts color
          ])
      by_color none e d later = cc (e, d.1)
      by_color (some gray) e d later = later color h low
      by_color (some black) e d later = later color h low
      by_color (some white) e d later =
          let paid = start_at-low start color there.0 e in
          after_visit (visit predicates fuel (start_at predicates start color))
            (visit-Answers fuel (start_at predicates start color)
              (insert-Painted color start gray h) (omega (arith, paid.0, low)))
            (omega (arith, paid.1, low)) later

all_white-Painted : (m : Dict PredicateKind) → Painted m (all_white m)
unfolding lookup
all_white-Painted [] x there = cc there
all_white-Painted ((k, p) ∷ m) x there = elim (Bool-cases (str_eq k x)) [
  | inl same ↦ (white, rw same refl)
  | inr other ↦
      let rest =
        all_white-Painted m x (subst (λ b. (b || contains (names_of m) x) ≡ true) other there) in
      (rest.0, rw other (rest.1))
]

-- The validation of the predicates always answers: the fuel is enough, and the search never asks
-- for the color of a name that has none.
pub validate_predicate_graph-answers :
    (predicates : Dict PredicateKind)
    → (c : Checked) × (validate_predicate_graph predicates ≡ some c)
unfolding validate_predicate_graph
validate_predicate_graph-answers predicates = by_shape (validate_predicate_shape predicates)
  where
    by_shape :
        (c : Checked)
        → Answered predicates (elim c [
          | err x ↦ some (err x)
          | ok u ↦
              visit_all predicates (enough predicates) (names_of predicates) (all_white predicates)
        ])
    by_shape (err x) = (err x, refl)
    by_shape (ok u) =
        visit_all-answers predicates (enough predicates) (names_of predicates)
          (all_white predicates) (contains_all (names_of predicates)) (all_white-Painted predicates)
          (omega (arith, all_white-weight predicates (all_white predicates)))
