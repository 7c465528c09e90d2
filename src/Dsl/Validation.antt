-- ===== src/Dsl/Validation.antt =====
-- crates/vcli-dsl/src/{lib,hash}.rs: the checks of a whole program, and the hashes of its
-- predicates. `hash` is `predicate_hash` of a predicate's JSON, with its error.
use vcli.Prelude.{String, false, Option, none, some, [], ◌∷◌, Dict, Result, ok, err, ◌>>=◌}
use vcli.Core.Predicate.{PredicateKind}
use vcli.Core.Program.{Program}
use vcli.Dsl.Path.{root, key}
use vcli.Dsl.Error.{DslErrorKind, DslError, Checked, fail_at}
use vcli.Dsl.Predicates.{validate_predicate_graph}
use vcli.Dsl.Steps.{validate_trigger, validate_steps}
use vcli.Dsl.Watches.{◌and_check◌, validate_watches}
pub mod References
pub mod Inline
pub mod Sound
pub mod Promises
pub mod Dispatch

pub record Validated : Type 0 where
  pub program : Program
  pub hashes : Dict String

module _ (hash : PredicateKind → Result DslErrorKind String) where
  abbrev pub hashed : String → Result DslErrorKind String → Result DslError String
  hashed name (ok h) = ok h
  hashed name (err e) = fail_at e (key (key root "predicates") name)

  unfoldable pub compute_predicate_hashes : Dict PredicateKind → Result DslError (Dict String)
  compute_predicate_hashes [] = ok []
  compute_predicate_hashes ((name, pred) ∷ rest) = do
    h ← hashed name (hash pred)
    hs ← compute_predicate_hashes rest
    ok ((name, h) ∷ hs)

  unfoldable pub checks : Program → Option Checked
  unfolding validate_predicate_graph validate_trigger validate_watches validate_steps
  checks program =
      validate_predicate_graph program.predicates
      and_check some (validate_trigger program.predicates program.trigger)
      and_check validate_watches program.predicates 0 program.watches
      and_check some (validate_steps program.predicates false 0 program.body (key root "body"))

  abbrev pub with_hashes : Program → Result DslError (Dict String) → Result DslError Validated
  with_hashes program (ok hs) = ok (record { program = program; hashes = hs })
  with_hashes program (err e) = err e

  unfoldable pub finish : Program → Option (Result DslError Validated)
  unfolding checks compute_predicate_hashes
  finish program = elim (checks program) [
    | none ↦ none
    | some (err e) ↦ some (err e)
    | some (ok u) ↦ some (with_hashes program (compute_predicate_hashes program.predicates))
  ]
