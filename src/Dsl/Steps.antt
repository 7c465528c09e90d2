-- ===== src/Dsl/Steps.antt =====
-- crates/vcli-dsl/src/{steps,triggers}.rs: the checks of the steps and of the trigger.
use vcli.Prelude.{
  ℕ, suc, String, Bool, true, false, ◌||◌, Option, none, some, List, [], ◌∷◌, if◌then◌else◌, Dict,
  lookup, Result, ok, err, ℤ, pos, negsuc,
}
use vcli.Core.Predicate.{
  PredicateKind, template, color_at, pixel_diff, all_of, any_of, not_of, elapsed_ms_since_true,
}
use vcli.Core.Program.{Target, Step, Trigger}
use vcli.Dsl.Path.{JsonPath, root, key, index}
use vcli.Dsl.Error.{
  DslErrorKind, Checked, fail_at, unknown_predicate_name, unknown_trigger_name,
  body_only_step_in_watch, negative_absolute_target, malformed_expression,
  expression_on_logical_predicate,
}
use vcli.Dsl.Hint.{did_you_mean}
use vcli.Dsl.Expression.{Expression, MalformedExpression, parse_expression}
use vcli.Dsl.Predicates.{names_of, contains, ◌then_check◌}

abbrev pub is_negative : ℤ → Bool
is_negative (pos n) = false
is_negative (negsuc n) = true

abbrev pub body_only : Bool → String → JsonPath → Checked → Checked
body_only true kind at next = fail_at (body_only_step_in_watch kind) at
body_only false kind at next = next

module _ (predicates : Dict PredicateKind) where
  -- The four places that look a name up differ in the error that a missing one gives.
  abbrev pub resolve_as : (String → Option String → DslErrorKind) → String → JsonPath → Checked
  resolve_as kind name at =
      if contains (names_of predicates) name
      then ok tt
      else fail_at (kind name (did_you_mean name (names_of predicates))) at

  unfoldable pub resolve_step_name : String → JsonPath → Checked
  resolve_step_name name at = resolve_as unknown_predicate_name name at

  abbrev pub check_match : String → JsonPath → Option PredicateKind → Checked
  check_match name at none =
      fail_at (unknown_predicate_name name (did_you_mean name (names_of predicates))) at
  check_match name at (some (all_of _)) = fail_at (expression_on_logical_predicate name) at
  check_match name at (some (any_of _)) = fail_at (expression_on_logical_predicate name) at
  check_match name at (some (not_of _)) = fail_at (expression_on_logical_predicate name) at
  check_match name at (some (elapsed_ms_since_true _ _)) =
      fail_at (expression_on_logical_predicate name) at
  check_match name at (some (template _ _ _ _)) = ok tt
  check_match name at (some (color_at _ _ _)) = ok tt
  check_match name at (some (pixel_diff _ _ _)) = ok tt

  abbrev pub check_expression : JsonPath → Result MalformedExpression Expression → Checked
  check_expression at (err e) = fail_at (malformed_expression e.reason e.raw) at
  check_expression at (ok e) = check_match e.name at (lookup e.name predicates)

  unfoldable pub validate_target : Target → JsonPath → Checked
  validate_target (Target.absolute p) at =
      if is_negative p.x || is_negative p.y
      then fail_at (negative_absolute_target p.x p.y) at
      else ok tt
  validate_target (Target.expression raw) at = check_expression at (parse_expression raw)

  unfoldable pub validate_step : Bool → Step → JsonPath → Checked
  unfolding validate_target resolve_step_name
  validate_step in_watch (Step.move tgt) at = validate_target tgt (key at "at")
  validate_step in_watch (Step.click tgt button) at = validate_target tgt (key at "at")
  validate_step in_watch (Step.scroll tgt dx dy) at = validate_target tgt (key at "at")
  validate_step in_watch (Step.type_text text) at = ok tt
  validate_step in_watch (Step.key k modifiers) at = ok tt
  validate_step in_watch (Step.wait_for predicate ms policy) at =
      body_only in_watch "wait_for" at (resolve_step_name predicate (key at "predicate"))
  validate_step in_watch (Step.assert predicate policy) at =
      body_only in_watch "assert" at (resolve_step_name predicate (key at "predicate"))
  validate_step in_watch (Step.sleep_ms ms) at = body_only in_watch "sleep_ms" at (ok tt)

  -- The steps from the `i`-th on: `validate_body_steps`, and `validate_watch_steps` in a watch.
  unfoldable pub validate_steps : Bool → ℕ → List Step → JsonPath → Checked
  unfolding validate_step
  validate_steps in_watch i [] base = ok tt
  validate_steps in_watch i (s ∷ steps) base =
      validate_step in_watch s (index base i) then_check validate_steps in_watch (suc i) steps base

  unfoldable pub validate_trigger : Trigger → Checked
  validate_trigger Trigger.on_submit = ok tt
  validate_trigger Trigger.manual = ok tt
  validate_trigger (Trigger.on_predicate name) =
      resolve_as unknown_trigger_name name (key (key root "trigger") "name")
