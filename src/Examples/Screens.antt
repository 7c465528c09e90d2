-- ===== src/Examples/Screens.antt =====
-- Evaluations of small predicate graphs, with leaves that are always true.
use vcli.Prelude.{
  ℕ, ◌<◌, String, str_append, ◌≡◌, inl, inr, true, false, none, some, [], ◌∷◌, arith, str_eq,
  eq_iff, if◌then◌else◌, Bool-cases, All, Dict, lookup, insert, Result, ok, pos, ◌+ℤ◌, ◌-ℤ◌,
  add_i32, sub_i32, refl, subst,
}
use vcli.Core.Predicate.{
  PredicateKind, color_at, all_of, any_of, not_of, elapsed_ms_since_true, Rgb,
}
use vcli.Core.Program.{ProgramId}
use mathlib.Core.Option.{some-injective}
use vcli.Perception.State.{
  PerceptionError, fresh, Perception, Context, first_true_at, cached, cache_insert,
}
use vcli.Perception.Evaluation.{
  Leaf, verdict, evaluate_named_with_depth, evaluate_facade, eval_elapsed, dispatch, eval_not,
  eval_any_of,
}
use vcli.Perception.Evaluation.Totality.{Ends, reads_of, facade-Ends, elapsed_cycle}
use vcli.Perception.Evaluation.Sharing.{evaluate_facade-shared}
use vcli.Perception.Evaluation.Elapsed.{IsTimed, eval_elapsed-IsTimed}
use vcli.Perception.ColorAt.{within, square_i32}
use vcli.Perception.ColorAt.Distance.{within-distance_sq}
use vcli.Examples.Data.{seen, screen}

-- The hash of a kind and of the names in it.
abbrev tag : PredicateKind → Result PerceptionError String
tag (all_of names) = ok "all"
tag (any_of names) = ok "any"
tag (not_of name) = ok (str_append "not " name)
tag (elapsed_ms_since_true name ms) = ok (str_append "elapsed " name)
tag _ = ok "leaf"

abbrev bright : Leaf
bright pred ctx p = (ok seen, p)

abbrev spot_color : PredicateKind
spot_color = color_at (record { x = pos 0; y = pos 0 }) (record { r = 0; g = 0; b = 0 }) 0

abbrev over : ProgramId → Dict PredicateKind → Context
over k predicates = record {
  predicates = predicates;
  frame = screen;
  now_ms = pos 50;
  assets = [];
  program = some k;
}

-- In one program "p" is the color of a spot, in the other it is false.
abbrev first_program : Context
first_program = over 1 (("p", spot_color) ∷ ("q", not_of "p") ∷ [])

abbrev second_program : Context
second_program = over 2 (("p", any_of []) ∷ ("q", not_of "p") ∷ [])

abbrev looping : Context
looping = over 1 (("q", elapsed_ms_since_true "q" 10) ∷ [])

abbrev depth_of : String → ℕ
depth_of name = if str_eq name "p" then 0 else 1

two_names :
    (name : String) (pred : PredicateKind)
    → lookup name first_program.predicates ≡ some pred
    → All (λ n. depth_of n < depth_of name) (reads_of pred)
unfolding lookup
two_names name pred e = elim (Bool-cases (str_eq "p" name)) [
  | inl p ↦ subst (λ x. All (λ n. depth_of n < depth_of name) (reads_of x)) (leaf_there p) tt
  | inr p ↦ elim (Bool-cases (str_eq "q" name)) [
    | inl q ↦
        subst (λ x. All (λ n. depth_of n < depth_of name) (reads_of x)) (negation_there p q)
          (subst (λ m. depth_of "p" < depth_of m) ((eq_iff "q" name).0 q) (omega arith), tt)
    | inr q ↦ cc (subst (λ b. (if b then some (not_of "p") else none) ≡ some pred) q (second p))
  ]
]
  where
    leaf_there : str_eq "p" name ≡ true → spot_color ≡ pred
    leaf_there p = some-injective spot_color pred (
        subst
          (λ b.
            (if b then some spot_color else if str_eq "q" name then some (not_of "p") else none)
            ≡ some pred)
          p e)

    second :
        str_eq "p" name ≡ false → (if str_eq "q" name then some (not_of "p") else none) ≡ some pred
    second p =
        subst
          (λ b.
            (if b then some spot_color else if str_eq "q" name then some (not_of "p") else none)
            ≡ some pred)
          p e

    negation_there : str_eq "p" name ≡ false → str_eq "q" name ≡ true → not_of "p" ≡ pred
    negation_there p q =
        some-injective (not_of "p") pred
          (subst (λ b. (if b then some (not_of "p") else none) ≡ some pred) q (second p))

facade-Ends_example : Ends (evaluate_facade tag bright 1 first_program "q" fresh)
facade-Ends_example =
    facade-Ends tag bright first_program depth_of 1 "q" fresh two_names (omega arith)

elapsed_cycle_example : evaluate_named_with_depth tag bright 100 looping "q" 0 fresh ≡ none
unfolding lookup cached
elapsed_cycle_example =
    elapsed_cycle tag bright looping 1 "q" 10 "elapsed q" fresh refl refl refl refl 100

abbrev filled : Perception
filled = record fresh { entries = ("leaf", seen) ∷ ("not p", verdict first_program false) ∷ [] }

first_result :
    evaluate_facade tag bright 1 first_program "q" fresh
    ≡ some (ok (verdict first_program false), filled)
unfolding evaluate_facade evaluate_named_with_depth dispatch eval_not lookup insert cached
    cache_insert
first_result = refl

-- The second program asks for the negation of its own "p", and gets that of the first one's.
evaluate_facade-shared_example :
    evaluate_facade tag bright 1 second_program "q" filled
    ≡ some (ok (verdict first_program false), filled)
unfolding lookup
evaluate_facade-shared_example =
    evaluate_facade-shared tag bright 1 1 first_program second_program "q" "q" fresh filled
      (not_of "p") (not_of "p") "not p" (verdict first_program false) refl refl refl refl
      first_result

-- Alone it gets its own.
alone :
    evaluate_facade tag bright 1 second_program "q" fresh
    ≡ some (
      ok (verdict second_program true),
      record fresh {
        entries =
            ("any", verdict second_program false) ∷ ("not p", verdict second_program true) ∷ [];
      },
    )
unfolding evaluate_facade evaluate_named_with_depth dispatch eval_not eval_any_of lookup insert
    cached cache_insert
alone = refl

eval_elapsed-IsTimed_example :
    IsTimed first_program
      (record { program = 1; predicate = "p" })
      10
      (some (pos 50))
      (eval_elapsed first_program (λ name p. some (ok seen, p)) "p" 10 fresh)
unfolding first_true_at
eval_elapsed-IsTimed_example =
    eval_elapsed-IsTimed first_program (λ name p. some (ok seen, p)) 1 "p" 10 fresh fresh seen refl
      refl

abbrev black : Rgb
black = record { r = 0; g = 0; b = 0 }

abbrev gray : Rgb
gray = record { r = 100; g = 100; b = 100 }

-- A tolerance of 50000 accepts no color at all.
within-distance_sq_example : within black black 50000 ≡ false
within-distance_sq_example =
    within-distance_sq black black (record { r = omega arith; g = omega arith; b = omega arith })
      (record { r = omega arith; g = omega arith; b = omega arith }) 50000 (omega arith)

-- The distance of black and gray is about 173.2.
close : within black gray 174 ≡ true
unfolding within square_i32 sub_i32 add_i32 ◌-ℤ◌ ◌+ℤ◌
close = refl
