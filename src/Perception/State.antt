-- ===== src/Perception/State.antt =====
-- crates/vcli-perception/src/{error,state,cache}.rs: the errors, the state that lives across ticks
-- and the result cache of one tick. A `DashMap` is an association list.
use vcli.Prelude.{
  ℕ, String, str_append, Bool, ◌&&◌, Option, none, some, List, [], ◌∷◌, str_eq, ◌==◌, if◌then◌else◌,
  Dict, lookup, insert, Result, ℤ,
}
use vcli.Core.Predicate.{PredicateKind, PredicateResult, Frame}
use vcli.Core.Program.{ProgramId}

pub data PerceptionError : Type 0 where
  unknown_predicate cycle asset_decode : String → PerceptionError
  region_out_of_bounds : PerceptionError
  asset_not_materialized : String → PerceptionError

-- The `Display` text.
abbrev pub describe : PerceptionError → String
describe (unknown_predicate n) = str_append "unknown predicate reference: " n
describe (cycle n) = str_append "cycle detected at predicate: " n
describe (asset_decode m) = str_append "asset decode: " m
describe region_out_of_bounds = "region outside frame bounds"
describe (asset_not_materialized m) = str_append "asset bytes not materialized for reference: " m

pub record PriorSnapshot : Type 0 where
  pub dhash : ℕ
  pub at_ms : ℤ

pub record ProgramPredKey : Type 0 where
  pub program : ProgramId
  pub predicate : String

-- `entries` is the cache by predicate hash; `prior_snapshots` goes by the hash of a region, and
-- `first_true` by the program and the predicate's name.
pub record Perception : Type 0 where
  pub entries : Dict PredicateResult
  pub prior_snapshots : Dict PriorSnapshot
  pub first_true : List (ProgramPredKey × ℤ)

abbrev pub fresh : Perception
fresh = record { entries = []; prior_snapshots = []; first_true = [] }

-- `Perception::clear`, `PredicateCache::{get, insert}`.
unfoldable pub clear : Perception → Perception
clear p = record p { entries = [] }

unfoldable pub cached : Perception → String → Option PredicateResult
cached p hash = lookup hash p.entries

unfoldable pub cache_insert : Perception → String → PredicateResult → Perception
cache_insert p hash r = record p { entries = insert hash r p.entries }

unfoldable pub prior_snapshot : Perception → String → Option PriorSnapshot
prior_snapshot p hash = lookup hash p.prior_snapshots

unfoldable pub record_snapshot : Perception → String → PriorSnapshot → Perception
record_snapshot p hash s = record p { prior_snapshots = insert hash s p.prior_snapshots }

abbrev pub key_eq : ProgramPredKey → ProgramPredKey → Bool
key_eq a b = a.program == b.program && str_eq a.predicate b.predicate

unfoldable pub first_of : ProgramPredKey → List (ProgramPredKey × ℤ) → Option ℤ
first_of k [] = none
first_of k ((j, t) ∷ m) = if key_eq j k then some t else first_of k m

unfoldable pub first_true_at : Perception → ProgramPredKey → Option ℤ
unfolding first_of
first_true_at p k = first_of k p.first_true

-- `entry(key).or_insert(at_ms)`: a timestamp that is there stays.
unfoldable pub set_first_true_at : Perception → ProgramPredKey → ℤ → Perception
unfolding first_of
set_first_true_at p k at_ms = elim (first_of k p.first_true) [
  | none ↦ record p { first_true = (k, at_ms) ∷ p.first_true }
  | some t ↦ p
]

unfoldable pub drop_key : ProgramPredKey → List (ProgramPredKey × ℤ) → List (ProgramPredKey × ℤ)
drop_key k [] = []
drop_key k ((j, t) ∷ m) = let rest = drop_key k m in if key_eq j k then rest else (j, t) ∷ rest

unfoldable pub clear_first_true_at : Perception → ProgramPredKey → Perception
unfolding drop_key
clear_first_true_at p k = record p { first_true = drop_key k p.first_true }

-- Everything that `Perception::evaluate_named` is given beside the name.
pub record Context : Type 0 where
  pub predicates : Dict PredicateKind
  pub frame : Frame
  pub now_ms : ℤ
  pub assets : Dict (List ℕ)
  pub program : Option ProgramId

-- The interface of the façade: the result and the state after it.
abbrev pub Evaluate : Type 0
Evaluate = String → Context → Perception → Result PerceptionError PredicateResult × Perception
