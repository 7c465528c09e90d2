-- ===== src/Dsl/Error.antt =====
-- crates/vcli-dsl/src/error.rs: what a validation answers.
use vcli.Prelude.{String, Option, none, List, Result, err, ℤ}
use vcli.Dsl.Path.{JsonPath}

-- The texts that serde gives are taken as they come.
pub data DslErrorKind : Type 0 where
  json_parse : String → DslErrorKind
  unsupported_dsl_version : String → String → DslErrorKind
  missing_field : String → DslErrorKind
  wrong_type : String → String → String → DslErrorKind
  unknown_predicate_name unknown_watch_name unknown_trigger_name :
      String → Option String → DslErrorKind
  predicate_cycle : List String → DslErrorKind
  elapsed_reference_missing : String → DslErrorKind
  negative_absolute_target : ℤ → ℤ → DslErrorKind
  body_only_step_in_watch : String → DslErrorKind
  malformed_expression : String → String → DslErrorKind
  expression_on_logical_predicate : String → DslErrorKind
  empty_logical_op : String → DslErrorKind
  full_display_template_without_opt_in : DslErrorKind
  canonicalization_failed : String → DslErrorKind

pub record DslError : Type 0 where
  pub kind : DslErrorKind
  pub path : JsonPath

-- `DslError::new`, returned.
abbrev pub fail_at {ℓ} : {A : Type ℓ} → DslErrorKind → JsonPath → Result DslError A
fail_at kind path = err (record { kind = kind; path = path })

abbrev pub hint_of : DslErrorKind → Option String
hint_of (unknown_predicate_name name hint) = hint
hint_of (unknown_watch_name name hint) = hint
hint_of (unknown_trigger_name name hint) = hint
hint_of _ = none

abbrev pub Checked : Type 0
Checked = Result DslError (Unit {0})
