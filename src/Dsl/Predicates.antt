-- ===== src/Dsl/Predicates.antt =====
-- crates/vcli-dsl/src/predicates.rs: the names that the predicates of a program refer to, and the
-- search for cycles among them.
use vcli.Prelude.{
  ℕ, zero, suc, ◌+◌, String, Bool, true, false, ◌||◌, Option, none, some, List, [], ◌∷◌, ◌++◌,
  str_eq, if◌then◌else◌, length, Dict, lookup, insert, Result, ok, err,
}
use vcli.Core.Predicate.{
  Region, relative_to, PredicateKind, template, color_at, pixel_diff, all_of, any_of, not_of,
  elapsed_ms_since_true,
}
use vcli.Dsl.Path.{JsonPath, root, key, index}
use vcli.Dsl.Error.{
  DslError, fail_at, Checked, unknown_predicate_name, elapsed_reference_missing, empty_logical_op,
  predicate_cycle,
}
use vcli.Dsl.Hint.{did_you_mean}
pub mod Names
pub mod Acyclic
pub mod Visits
pub mod Ranking
pub mod Accepted
pub mod Ending
pub mod Weights
pub mod Termination
pub mod Cycles
pub mod Rejected

abbrev pub names_of {ℓ} : {V : Type ℓ} → Dict V → List String
names_of [] = []
names_of ((k, v) ∷ m) = k ∷ names_of m

-- `names.contains(&name)`
abbrev pub contains : List String → String → Bool
contains [] name = false
contains (n ∷ ns) name = str_eq n name || contains ns name

-- A loop of checks, which ends at the first error.
infixl 5 ◌then_check◌
abbrev pub ◌then_check◌ : Checked → Checked → Checked
ok u then_check next = next
err e then_check next = err e

module _ (names : List String) where
  unfoldable pub resolve_name : String → JsonPath → Checked
  resolve_name name at =
      if contains names name
      then ok tt
      else fail_at (unknown_predicate_name name (did_you_mean name names)) at

  unfoldable pub resolve_elapsed : String → JsonPath → Checked
  resolve_elapsed name at =
      if contains names name then ok tt else fail_at (elapsed_reference_missing name) at

  -- The operands of a logical predicate, from the `i`-th on.
  unfoldable pub resolve_all : ℕ → List String → JsonPath → Checked
  unfolding resolve_name
  resolve_all i [] at = ok tt
  resolve_all i (n ∷ ns) at = resolve_name n (index at i) then_check resolve_all (suc i) ns at

  abbrev pub check_operands : String → List String → JsonPath → Checked
  check_operands op [] at = fail_at (empty_logical_op op) at
  check_operands op (n ∷ ns) at = resolve_all 0 (n ∷ ns) at

  abbrev pub check_region_references : Region → JsonPath → Checked
  check_region_references (relative_to predicate anchor offset size) at =
      resolve_name predicate (key at "predicate")
  check_region_references _ at = ok tt

  unfoldable pub check_predicate_references : PredicateKind → JsonPath → Checked
  unfolding resolve_all resolve_elapsed resolve_name
  check_predicate_references (all_of of) at = check_operands "all_of" of (key at "of")
  check_predicate_references (any_of of) at = check_operands "any_of" of (key at "of")
  check_predicate_references (not_of of) at = resolve_name of (key at "of")
  check_predicate_references (elapsed_ms_since_true predicate ms) at =
      resolve_elapsed predicate (key at "predicate")
  check_predicate_references (template image confidence region throttle_ms) at =
      check_region_references region (key at "region")
  check_predicate_references (pixel_diff region baseline threshold) at =
      check_region_references region (key at "region")
  check_predicate_references (color_at point rgb tolerance) at = ok tt

  abbrev pub predicate_path : String → JsonPath
  predicate_path name = key (key root "predicates") name

  unfoldable pub check_each : Dict PredicateKind → Checked
  unfolding check_predicate_references
  check_each [] = ok tt
  check_each ((name, pred) ∷ rest) =
      check_predicate_references pred (predicate_path name) then_check check_each rest

unfoldable pub validate_predicate_shape : Dict PredicateKind → Checked
unfolding check_each
validate_predicate_shape predicates = check_each (names_of predicates) predicates

abbrev pub region_edges : Region → List String
region_edges (relative_to predicate anchor offset size) = predicate ∷ []
region_edges _ = []

abbrev pub edges_of : PredicateKind → List String
edges_of (all_of of) = of
edges_of (any_of of) = of
edges_of (not_of of) = of ∷ []
edges_of (elapsed_ms_since_true predicate ms) = predicate ∷ []
edges_of (template image confidence region throttle_ms) = region_edges region
edges_of (pixel_diff region baseline threshold) = region_edges region
edges_of (color_at point rgb tolerance) = []

pub data Color : Type 0 where
  white gray black : Color

abbrev pub is_white : Color → Bool
is_white white = true
is_white _ = false

-- A frame of the stack is a name and the edges that are left of it.
abbrev pub Stack : Type 0
Stack = List (String × List String)

-- `path[start_idx..]`, the whole path if the name is not on it.
unfoldable pub from_position : String → List String → Option (List String)
from_position name [] = none
from_position name (n ∷ ns) = if str_eq n name then some (n ∷ ns) else from_position name ns

abbrev pub or_whole : List String → Option (List String) → List String
or_whole path none = path
or_whole path (some tail) = tail

unfoldable pub reversed_onto : List String → List String → List String
reversed_onto [] acc = acc
reversed_onto (x ∷ xs) acc = reversed_onto xs (x ∷ acc)

unfoldable pub cycle_at : String → List String → List String
unfolding from_position reversed_onto
cycle_at next path =
    let forward = reversed_onto path [] in
    or_whole forward (from_position next forward) ++ next ∷ []

-- The variables of the search. The stack and the path are kept with their last element first.
pub record Search : Type 0 where
  pub color : Dict Color
  pub stack : Stack
  pub path : List String

-- One round of the `while let` loop: it goes on, ends, answers the error or, where the map has no
-- color for a name, panics.
pub data Round : Type 0 where
  again : Search → Round
  finished : Dict Color → Round
  rejected : DslError → Round
  panicked : Round

abbrev pub tail_of : List String → List String
tail_of [] = []
tail_of (x ∷ xs) = xs

abbrev pub edges_at : Option PredicateKind → List String
edges_at none = []
edges_at (some p) = edges_of p

abbrev pub all_white : Dict PredicateKind → Dict Color
all_white [] = []
all_white ((k, p) ∷ rest) = (k, white) ∷ all_white rest

-- Two rounds for each name and one for each edge.
abbrev pub enough : Dict PredicateKind → ℕ
enough [] = 1
enough ((k, p) ∷ rest) = 2 + length (edges_of p) + enough rest

module _ (predicates : Dict PredicateKind) where
  -- `edges_of(&predicates[name])`
  abbrev pub edges : String → List String
  edges name = edges_at (lookup name predicates)

  -- An edge to a name of the map, by the color that the name has. `s` has the edge taken off.
  abbrev pub follow : String → Search → Option Color → Round
  follow next s none = panicked
  follow next s (some white) = again (record {
    color = insert next gray s.color;
    stack = (next, edges next) ∷ s.stack;
    path = next ∷ s.path;
  })
  follow next s (some gray) =
      rejected
        (record { kind = predicate_cycle (cycle_at next s.path); path = key root "predicates" })
  follow next s (some black) = again s

  abbrev pub look_at : Dict Color → List String → Stack → Round
  look_at color path [] = finished color
  look_at color path ((cur, []) ∷ stack) =
      again (record { color = insert cur black color; stack = stack; path = tail_of path })
  look_at color path ((cur, next ∷ rest) ∷ stack) =
      let s : Search = record { color = color; stack = (cur, rest) ∷ stack; path = path } in
      if contains (names_of predicates) next then follow next s (lookup next color) else again s

  unfoldable pub round : Search → Round
  unfolding cycle_at
  round s = look_at s.color s.path s.stack

  -- `none` where the fuel ends or a round panics.
  unfoldable pub visit : ℕ → Search → Option (Result DslError (Dict Color))
  unfolding round
  visit zero s = none
  visit (suc fuel) s = elim (round s) [
    | again t ↦ visit fuel t
    | finished color ↦ some (ok color)
    | rejected e ↦ some (err e)
    | panicked ↦ none
  ]

  abbrev pub start_at : String → Dict Color → Search
  start_at start color = record {
    color = insert start gray color;
    stack = (start, edges start) ∷ [];
    path = start ∷ [];
  }

  -- `for start in predicates.keys()`
  unfoldable pub visit_all : ℕ → List String → Dict Color → Option Checked
  unfolding visit
  visit_all fuel [] color = some (ok tt)
  visit_all fuel (start ∷ starts) color = elim (lookup start color) [
    | none ↦ none
    | some white ↦ elim (visit fuel (start_at start color)) [
      | none ↦ none
      | some (err e) ↦ some (err e)
      | some (ok color') ↦ visit_all fuel starts color'
    ]
    | some _ ↦ visit_all fuel starts color
  ]

  unfoldable pub validate_predicate_graph : Option Checked
  unfolding validate_predicate_shape visit_all
  validate_predicate_graph = elim (validate_predicate_shape predicates) [
    | err e ↦ some (err e)
    | ok u ↦ visit_all (enough predicates) (names_of predicates) (all_white predicates)
  ]
