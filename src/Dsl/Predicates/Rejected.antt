-- ===== src/Dsl/Predicates/Rejected.antt =====
-- The errors of the whole search of crates/vcli-dsl/src/predicates.rs.
use vcli.Prelude.{
  ℕ, suc, String, ◌≡◌, refl, subst, inl, inr, Option, none, some, List, [], ◌∷◌, arith, str_eq,
  if◌then◌else◌, Bool-cases, Dict, lookup, insert, lookup-insert, Result, ok, err,
}
use vcli.Core.Predicate.{
  Region, absolute, window, relative_to, PredicateKind, template, color_at, pixel_diff, all_of,
  any_of, not_of, elapsed_ms_since_true,
}
use vcli.Dsl.Path.{JsonPath, key, index}
use vcli.Dsl.Error.{DslError, Checked}
use vcli.Dsl.Predicates.{
  names_of, contains, Color, white, gray, black, visit, start_at, visit_all, all_white, enough,
  edges, validate_predicate_graph, validate_predicate_shape, ◌then_check◌, resolve_name,
  resolve_elapsed, resolve_all, check_operands, check_region_references, check_predicate_references,
  check_each, predicate_path,
}
use vcli.Dsl.Predicates.Names.{contains_all}
use vcli.Dsl.Predicates.Cycles.{IsCycle, Inv, VisitReports, visit-Reports}

module _ (predicates : Dict PredicateKind) where
  -- An error that reports a cycle reports a real one.
  abbrev pub Honest : Checked → Type 0
  Honest (ok u) = Unit {0}
  Honest (err e) = IsCycle predicates e.kind

  then_check-Honest : (a b : Checked) → Honest a → Honest b → Honest (a then_check b)
  then_check-Honest (ok u) b ha hb = hb
  then_check-Honest (err e) b ha hb = ha

  module _ (names : List String) where
    resolve_name-Honest : (name : String) (at : JsonPath) → Honest (resolve_name names name at)
    unfolding resolve_name
    resolve_name-Honest name at = elim (Bool-cases (contains names name)) [
      | inl known ↦ rw known tt
      | inr unknown ↦ rw unknown tt
    ]

    resolve_all-Honest :
        (i : ℕ) (ns : List String) (at : JsonPath) → Honest (resolve_all names i ns at)
    unfolding resolve_all
    resolve_all-Honest i [] at = tt
    resolve_all-Honest i (n ∷ ns) at =
        then_check-Honest (resolve_name names n (index at i)) (resolve_all names (suc i) ns at)
          (resolve_name-Honest n (index at i)) (resolve_all-Honest (suc i) ns at)

    operands-Honest :
        (op : String) (ns : List String) (at : JsonPath) → Honest (check_operands names op ns at)
    operands-Honest op [] at = tt
    operands-Honest op (n ∷ ns) at = resolve_all-Honest 0 (n ∷ ns) at

    region-Honest : (r : Region) (at : JsonPath) → Honest (check_region_references names r at)
    region-Honest (absolute r) at = tt
    region-Honest (window app title i) at = tt
    region-Honest (relative_to p anchor offset size) at = resolve_name-Honest p (key at "predicate")

    references-Honest :
        (pred : PredicateKind) (at : JsonPath) → Honest (check_predicate_references names pred at)
    unfolding check_predicate_references resolve_elapsed
    references-Honest (all_of of) at = operands-Honest "all_of" of (key at "of")
    references-Honest (any_of of) at = operands-Honest "any_of" of (key at "of")
    references-Honest (not_of of) at = resolve_name-Honest of (key at "of")
    references-Honest (template image confidence region throttle) at =
        region-Honest region (key at "region")
    references-Honest (pixel_diff region baseline threshold) at =
        region-Honest region (key at "region")
    references-Honest (color_at point rgb tolerance) at = tt
    references-Honest (elapsed_ms_since_true name ms) at = elim (Bool-cases (contains names name)) [
      | inl known ↦ rw known tt
      | inr unknown ↦ rw unknown tt
    ]

    check_each-Honest : (m : Dict PredicateKind) → Honest (check_each names m)
    unfolding check_each
    check_each-Honest [] = tt
    check_each-Honest ((name, pred) ∷ m) =
        then_check-Honest (check_predicate_references names pred (predicate_path names name))
          (check_each names m) (references-Honest pred (predicate_path names name))
          (check_each-Honest m)

  abbrev pub HonestIf : Option Checked → Type 0
  HonestIf none = Unit {0}
  HonestIf (some c) = Honest c

  visit_all-Honest :
      (fuel : ℕ) (starts : List String) (color : Dict Color)
      → ((x : String) → lookup x color ≡ some gray → ⊥)
      → HonestIf (visit_all predicates fuel starts color)
  unfolding visit_all
  visit_all-Honest fuel [] color no_gray = tt
  visit_all-Honest fuel (start ∷ starts) color no_gray =
      by_color (lookup start color) (λ c k. visit_all-Honest fuel starts c k)
    where
      Later : Type 0
      Later =
          (c : Dict Color)
          → ((x : String) → lookup x c ≡ some gray → ⊥)
          → HonestIf (visit_all predicates fuel starts c)

      after_visit :
          (v : Option (Result DslError (Dict Color)))
          → VisitReports predicates v
          → Later
          → HonestIf (elim v [
            | none ↦ none
            | some (err x) ↦ some (err x)
            | some (ok c) ↦ visit_all predicates fuel starts c
          ])
      after_visit none r later = tt
      after_visit (some (err x)) r later = r
      after_visit (some (ok c)) r later = later c r

      started :
          Inv predicates
            (insert start gray color)
            (start ∷ [])
            ((start, edges predicates start) ∷ [])
      started = record {
        mirrors = refl;
        linked = tt;
        frames = (contains_all (edges predicates start), tt);
        grays = λ x g. elim (Bool-cases (str_eq start x)) [
          | inl same ↦ rw same refl
          | inr other ↦ absurd (no_gray x (ground (arith, lookup-insert start x gray color)))
        ];
      }

      by_color :
          (c : Option Color)
          → Later
          → HonestIf (elim c [
            | none ↦ none
            | some white ↦ elim (visit predicates fuel (start_at predicates start color)) [
              | none ↦ none
              | some (err x) ↦ some (err x)
              | some (ok c') ↦ visit_all predicates fuel starts c'
            ]
            | some _ ↦ visit_all predicates fuel starts color
          ])
      by_color none later = tt
      by_color (some gray) later = later color no_gray
      by_color (some black) later = later color no_gray
      by_color (some white) later =
          after_visit (visit predicates fuel (start_at predicates start color))
            (visit-Reports predicates fuel (start_at predicates start color) started) later

all_white-none : (m : Dict PredicateKind) (x : String) → lookup x (all_white m) ≡ some gray → ⊥
unfolding lookup
all_white-none [] x e = cc e
all_white-none ((k, p) ∷ m) x e = elim (Bool-cases (str_eq k x)) [
  | inl same ↦
      cc (subst (λ b. (if b then some white else lookup x (all_white m)) ≡ some gray) same e)
  | inr other ↦
      all_white-none m x
        (subst (λ b. (if b then some white else lookup x (all_white m)) ≡ some gray) other e)
]

-- A cycle that the validation reports is one: the list ends with the name that it starts with, and
-- each name of it refers to the next, in a logical predicate, in a time since, or in a region.
pub rejected-IsCycle :
    (predicates : Dict PredicateKind) (e : DslError)
    → validate_predicate_graph predicates ≡ some (err e)
    → IsCycle predicates e.kind
unfolding validate_predicate_graph validate_predicate_shape
rejected-IsCycle predicates e h = subst (HonestIf predicates) h (
    by_shape (check_each (names_of predicates) predicates)
      (check_each-Honest predicates (names_of predicates) predicates))
  where
    by_shape :
        (c : Checked)
        → Honest predicates c
        → HonestIf predicates (elim c [
          | err x ↦ some (err x)
          | ok u ↦
              visit_all predicates (enough predicates) (names_of predicates) (all_white predicates)
        ])
    by_shape (err x) r = r
    by_shape (ok u) r =
        visit_all-Honest predicates (enough predicates) (names_of predicates) (all_white predicates)
          (all_white-none predicates)
