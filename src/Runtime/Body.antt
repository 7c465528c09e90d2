-- ===== src/Runtime/Body.antt =====
-- crates/vcli-runtime/src/body.rs and triggers.rs: one step of a body, the action of a watch, and
-- whether a waiting program may start.
use vcli.Prelude.{
  ℕ, String, Bool, true, false, Option, none, some, List, [], if◌then◌else◌, get_elem?, Result, ok,
  err, ◌>>=◌, ℤ, pos, leb_ℤ, saturating_add,
}
use vcli.Core.Predicate.{Point, PredicateResult}
use vcli.Core.Program.{Target, OnTimeout, OnFail, Step, Trigger, expression}
use vcli.Perception.State.{PerceptionError, Context, describe}
use vcli.Runtime.Error.{RuntimeError}
use vcli.Runtime.Program.{BodyDefer}
use vcli.Runtime.Expr.{
  ParsedExpr, Accessor, match_center, match_bbox, parse, resolve_center, resolve_bbox,
}
use vcli.Runtime.World.{InputCall, Env, World, send}
pub mod Waiting

pub data StepOutcome : Type 0 where
  advanced stalled body_done : StepOutcome
  failed : RuntimeError → StepOutcome

module _ (env : Env) (ctx : Context) where
  -- `perception.evaluate_named(…)`, its error turned into `RuntimeError::Perception`.
  abbrev pub lift_error :
      Result PerceptionError PredicateResult → Result RuntimeError PredicateResult
  lift_error (ok r) = ok r
  lift_error (err e) = err (RuntimeError.perception (describe e))

  unfoldable pub evaluate_named : String → World → Result RuntimeError PredicateResult × World
  evaluate_named name w =
      let (r, p) = env.evaluate name ctx w.perception in (lift_error r, record w { perception = p })

  abbrev pub access : Accessor → PredicateResult → Result RuntimeError Point
  access match_center r = resolve_center r
  access match_bbox r = do bx ← resolve_bbox r; ok (record { x = bx.x; y = bx.y })

  abbrev pub resolve_parsed :
      Result RuntimeError ParsedExpr → World → Result RuntimeError Point × World
  resolve_parsed (err e) w = (err e, w)
  resolve_parsed (ok e) w =
      let (r, w') = evaluate_named e.predicate w in (r >>= access e.accessor, w')

  unfoldable pub resolve_target : Target → World → Result RuntimeError Point × World
  resolve_target (Target.absolute p) w = (ok p, w)
  resolve_target (Target.expression s) w = resolve_parsed (parse s) w

  abbrev pub call_at :
      (Point → InputCall)
      → Result RuntimeError Point
      → World
      → Result RuntimeError (Unit {0}) × World
  call_at call (err e) w = (err e, w)
  call_at call (ok p) w = send env (call p) w

  -- Resolve the target, then make the call there.
  unfoldable pub act_at :
      Target → (Point → InputCall) → World → Result RuntimeError (Unit {0}) × World
  unfolding resolve_target
  act_at target call w = let (p, w') = resolve_target target w in call_at call p w'

  -- An action of a watch. A wheel step moves the pointer and does not scroll.
  unfoldable pub dispatch_action : Step → World → Result RuntimeError (Unit {0}) × World
  dispatch_action (Step.move at) w = act_at at InputCall.mouse_move w
  dispatch_action (Step.click at button) w = act_at at (λ p. InputCall.click p button [] 0) w
  dispatch_action (Step.scroll at dx dy) w = act_at at InputCall.mouse_move w
  dispatch_action (Step.type_text text) w = send env (InputCall.type_text text) w
  dispatch_action (Step.key key modifiers) w = send env (InputCall.key_combo modifiers key) w
  dispatch_action (Step.sleep_ms _) w =
      (err (RuntimeError.internal "body-only step used in watch"), w)
  dispatch_action (Step.wait_for _ _ _) w =
      (err (RuntimeError.internal "body-only step used in watch"), w)
  dispatch_action (Step.assert _ _) w =
      (err (RuntimeError.internal "body-only step used in watch"), w)

  abbrev pub outcome_of : Result RuntimeError (Unit {0}) → StepOutcome
  outcome_of (ok _) = advanced
  outcome_of (err e) = failed e

  -- `dispatch_at`
  unfoldable pub dispatch_at : Target → (Point → InputCall) → World → StepOutcome × World
  dispatch_at target call w = let (r, w') = act_at target call w in (outcome_of r, w')

  abbrev pub send_step : InputCall → World → StepOutcome × World
  send_step call w = let (r, w') = send env call w in (outcome_of r, w')

  abbrev pub assert_outcome : OnFail → String → Result RuntimeError PredicateResult → StepOutcome
  assert_outcome policy name (err e) = failed e
  assert_outcome OnFail.continue name (ok r) = advanced
  assert_outcome OnFail.fail name (ok r) =
      if r.truthy then advanced else failed (RuntimeError.assert_failed name)

  -- A step with no deferral pending: the outcome and the deferral that it leaves.
  unfoldable pub begin_step : Step → World → StepOutcome × Option BodyDefer × World
  begin_step (Step.sleep_ms ms) w =
      (stalled, some (BodyDefer.sleep (saturating_add ctx.now_ms (pos ms))), w)
  begin_step (Step.wait_for name ms on_timeout) w =
      (stalled, some (BodyDefer.wait_for name (saturating_add ctx.now_ms (pos ms)) on_timeout), w)
  begin_step (Step.assert name policy) w =
      let (r, w') = evaluate_named name w in (assert_outcome policy name r, none, w')
  begin_step (Step.move at) w = let (o, w') = dispatch_at at InputCall.mouse_move w in (o, none, w')
  begin_step (Step.click at button) w =
      let (o, w') = dispatch_at at (λ p. InputCall.click p button [] 0) w in (o, none, w')
  begin_step (Step.scroll at dx dy) w =
      let (o, w') = dispatch_at at InputCall.mouse_move w in (o, none, w')
  begin_step (Step.type_text text) w =
      let (o, w') = send_step (InputCall.type_text text) w in (o, none, w')
  begin_step (Step.key key modifiers) w =
      let (o, w') = send_step (InputCall.key_combo modifiers key) w in (o, none, w')

  abbrev pub timed_out : OnTimeout → String → StepOutcome
  timed_out OnTimeout.continue name = advanced
  timed_out OnTimeout.retry name = advanced
  timed_out OnTimeout.fail name = failed (RuntimeError.wait_for_timeout name 0)

  abbrev pub wait_outcome :
      BodyDefer
      → String
      → ℤ
      → OnTimeout
      → Result RuntimeError PredicateResult
      → StepOutcome × Option BodyDefer
  wait_outcome def name deadline on_timeout (err e) = (failed e, some def)
  wait_outcome def name deadline on_timeout (ok r) =
      if r.truthy
      then (advanced, none)
      else if leb_ℤ deadline ctx.now_ms
      then (timed_out on_timeout name, none)
      else (stalled, some def)

  -- A pending deferral.
  unfoldable pub continue_step : BodyDefer → World → StepOutcome × Option BodyDefer × World
  continue_step (BodyDefer.sleep wake_at_ms) w =
      if leb_ℤ wake_at_ms ctx.now_ms
      then (advanced, none, w)
      else (stalled, some (BodyDefer.sleep wake_at_ms), w)
  continue_step (BodyDefer.wait_for name deadline on_timeout) w =
      let (r, w') = evaluate_named name w in
      let (o, d) =
        wait_outcome (BodyDefer.wait_for name deadline on_timeout) name deadline on_timeout r in
      (o, d, w')

  abbrev pub at_cursor : Option Step → World → StepOutcome × Option BodyDefer × World
  at_cursor none w = (body_done, none, w)
  at_cursor (some step) w = begin_step step w

  unfoldable pub step_once :
      List Step → ℕ → Option BodyDefer → World → StepOutcome × Option BodyDefer × World
  step_once body cursor (some def) w = continue_step def w
  step_once body cursor none w = at_cursor (get_elem? body cursor) w

  abbrev pub truthy_of : Result RuntimeError PredicateResult → Result RuntimeError Bool
  truthy_of (ok r) = ok r.truthy
  truthy_of (err e) = err e

  -- triggers.rs
  unfoldable pub trigger_fires : Trigger → World → Result RuntimeError Bool × World
  trigger_fires Trigger.on_submit w = (ok true, w)
  trigger_fires Trigger.manual w = (ok false, w)
  trigger_fires (Trigger.on_predicate name) w =
      let (r, w') = evaluate_named name w in (truthy_of r, w')
