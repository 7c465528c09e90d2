-- ===== src/Runtime/Scheduler/Quiet.antt =====
-- What evaluates, steps and acts leaves the log alone, but for the report of each action.
use vcli.Prelude.{
  ℕ, ◌+◌, String, ◌≡◌, refl, ap, ◌∙◌, inl, inr, Bool, true, false, Option, none, some, List, [],
  ◌∷◌, arith, if◌then◌else◌, Option-cases, get_elem?, Assoc, get, Result, ok, err, ℤ, Result-cases,
}
use vcli.Core.Predicate.{Point, Frame}
use vcli.Core.Program.{Target, Step, WatchWhen, Lifetime, Watch, Trigger, ProgramId}
use vcli.Core.Event.{action_dispatched, Event}
use vcli.Perception.State.{Context}
use vcli.Runtime.Program.{RunningProgram, BodyDefer, WatchRuntime}
use vcli.Runtime.World.{Env, World, InputCall, emit, send}
use vcli.Runtime.Expr.{ParsedExpr, parse}
use vcli.Runtime.Error.{RuntimeError}
use vcli.Runtime.Body.{
  evaluate_named, resolve_parsed, resolve_target, call_at, act_at, dispatch_action, dispatch_at,
  begin_step, continue_step, step_once, trigger_fires,
}
use vcli.Runtime.Scheduler.State.{context}
use vcli.Runtime.Scheduler.Watching.{
  Checked, passed, check_watch, check_watches, check_live, evaluate_when, or_default, terminator,
}
use vcli.Runtime.Scheduler.Firing.{evaluate_running, dispatch_steps}
use vcli.Runtime.Scheduler.Log.{Quiet, last_state, last_state-append}

module _ (env : Env) where
  events-send : (call : InputCall) (w : World) → (send env call w).1.events ≡ w.events
  unfolding send
  events-send call w = refl

module _ (env : Env) (ctx : Context) where
  pub events-evaluate :
      (name : String) (w : World) → (evaluate_named env ctx name w).1.events ≡ w.events
  unfolding evaluate_named
  events-evaluate name w = refl

  events-resolve_parsed :
      (e : Result RuntimeError ParsedExpr) (w : World)
      → (resolve_parsed env ctx e w).1.events ≡ w.events
  events-resolve_parsed (ok e) w = events-evaluate e.predicate w
  events-resolve_parsed (err e) w = refl

  events-resolve_target :
      (target : Target) (w : World) → (resolve_target env ctx target w).1.events ≡ w.events
  unfolding resolve_target
  events-resolve_target (Target.absolute p) w = refl
  events-resolve_target (Target.expression s) w = events-resolve_parsed (parse s) w

  events-call_at :
      (call : Point → InputCall) (p : Result RuntimeError Point) (w : World)
      → (call_at env ctx call p w).1.events ≡ w.events
  events-call_at call (ok p) w = events-send env (call p) w
  events-call_at call (err e) w = refl

  events-act_at :
      (target : Target) (call : Point → InputCall) (w : World)
      → (act_at env ctx target call w).1.events ≡ w.events
  unfolding act_at
  events-act_at target call w =
      events-call_at call (resolve_target env ctx target w).0 (resolve_target env ctx target w).1
      ∙ events-resolve_target target w

  pub events-dispatch_action :
      (s : Step) (w : World) → (dispatch_action env ctx s w).1.events ≡ w.events
  unfolding dispatch_action
  events-dispatch_action (Step.move at) w = events-act_at at _ w
  events-dispatch_action (Step.click at button) w = events-act_at at _ w
  events-dispatch_action (Step.scroll at dx dy) w = events-act_at at _ w
  events-dispatch_action (Step.type_text text) w = events-send env _ w
  events-dispatch_action (Step.key key modifiers) w = events-send env _ w
  events-dispatch_action _ w = refl

  events-begin_step : (s : Step) (w : World) → (begin_step env ctx s w).2.events ≡ w.events
  unfolding begin_step dispatch_at
  events-begin_step (Step.move at) w = events-act_at at _ w
  events-begin_step (Step.click at button) w = events-act_at at _ w
  events-begin_step (Step.scroll at dx dy) w = events-act_at at _ w
  events-begin_step (Step.type_text text) w = events-send env _ w
  events-begin_step (Step.key key modifiers) w = events-send env _ w
  events-begin_step (Step.assert name policy) w = events-evaluate name w
  events-begin_step _ w = refl

  events-continue_step :
      (d : BodyDefer) (w : World) → (continue_step env ctx d w).2.events ≡ w.events
  unfolding continue_step
  events-continue_step (BodyDefer.sleep t) w = ground arith
  events-continue_step (BodyDefer.wait_for name t policy) w = events-evaluate name w

  -- A body step reports nothing by itself.
  pub events-step_once :
      (body : List Step) (cursor : ℕ) (d : Option BodyDefer) (w : World)
      → (step_once env ctx body cursor d w).2.events ≡ w.events
  unfolding step_once
  events-step_once body cursor (some d) w = events-continue_step d w
  events-step_once body cursor none w = elim (Option-cases (get_elem? body cursor)) [
    | inl e ↦ rw e refl
    | inr (s, e) ↦ rw e (events-begin_step s w)
  ]

  pub events-trigger_fires :
      (t : Trigger) (w : World) → (trigger_fires env ctx t w).1.events ≡ w.events
  unfolding trigger_fires
  events-trigger_fires Trigger.on_submit w = refl
  events-trigger_fires Trigger.manual w = refl
  events-trigger_fires (Trigger.on_predicate name) w = events-evaluate name w

gated :
    {es : List Event} (b : Bool) (x y : Checked × World)
    → x.1.events ≡ es
    → y.1.events ≡ es
    → (if b then x else y).1.events ≡ es
gated true x y p q = p
gated false x y p q = q

module _ (env : Env) (ctx : Context) (now since : ℤ) where
  events-terminator :
      (l : Lifetime) (w : World) → (terminator env ctx now since l w).1.events ≡ w.events
  events-terminator (Lifetime.until_predicate name) w = events-evaluate env ctx name w
  events-terminator _ w = refl

  events-evaluate_when :
      (i : ℕ) (when : WatchWhen) (w : World)
      → (evaluate_when env ctx now since i when w).1.events ≡ w.events
  events-evaluate_when i (WatchWhen.by_name n) w = events-evaluate env ctx n w
  events-evaluate_when i (WatchWhen.inline p) w = events-evaluate env _ _ w

  events-check_live :
      (i : ℕ) (watch : Watch) (state : WatchRuntime) (t : Bool × World)
      → (check_live env ctx now since i watch state t).1.events ≡ t.1.events
  events-check_live i watch state (true, w) = refl
  events-check_live i watch state (false, w) = events-evaluate_when i watch.when w

  events-check_watch :
      (i : ℕ) (watch : Watch) (state : WatchRuntime) (w : World)
      → (check_watch env ctx now since i watch state w).1.events ≡ w.events
  unfolding check_watch
  events-check_watch i watch state w =
      gated state.retired (passed, w) _ refl
        (events-check_live i watch state _ ∙ events-terminator watch.lifetime w)

  pub events-check_watches :
      (m : Assoc WatchRuntime) (i : ℕ) (ws : List Watch) (w : World)
      → (check_watches env ctx now since m i ws w).1.events ≡ w.events
  unfolding check_watches
  events-check_watches m i [] w = refl
  events-check_watches m i (watch ∷ rest) w =
      events-check_watches m (i + 1) rest _ ∙ events-check_watch i watch (or_default (get i m)) w

module _ (env : Env) where
  emit_action :
      (k : ProgramId) (s : Step) (w : World) (j : ProgramId)
      → last_state j (emit env (action_dispatched k s none) w).events ≡ last_state j w.events
  unfolding emit
  emit_action k s w j = last_state-append j w.events _

module _ (env : Env) (frame : Frame) (now : ℤ) where
  -- The evaluation of the watches of every running program reports nothing.
  pub events-evaluate_running :
      (m : Assoc RunningProgram) (ks : List ProgramId) (w : World)
      → (evaluate_running env frame now m ks w).1.events ≡ w.events
  unfolding evaluate_running
  events-evaluate_running m [] w = refl
  events-evaluate_running m (k ∷ ks) w = elim (Option-cases (get k m)) [
    | inl e ↦ rw (e, evaluate_running) (events-evaluate_running m ks w)
    | inr (rp, e) ↦
        rw (e, evaluate_running)
          (events-evaluate_running m ks _
            ∙ events-check_watches env (context frame now k rp) now _ rp.watch_state 0
                rp.program.watches w)
  ]

  -- The actions of a watch report themselves, and say nothing of a state.
  pub dispatch_steps-Quiet :
      (k : ProgramId) (ctx : Context) (ss : List Step) (w : World)
      → Quiet w (dispatch_steps env frame now k ctx ss w).1
  unfolding dispatch_steps
  dispatch_steps-Quiet k ctx [] w = record { same = λ j. refl }
  dispatch_steps-Quiet k ctx (s ∷ ss) w =
      let w1 = emit env (action_dispatched k s none) w in
      let done = dispatch_action env ctx s w1 in
      let reported : (j : ProgramId) → last_state j done.1.events ≡ last_state j w.events =
        λ j. ap (last_state j) (events-dispatch_action env ctx s w1) ∙ emit_action env k s w j in
      elim (Result-cases done.0) [
        | inl (u, e) ↦
            rw (e, dispatch_steps)
              (record { same = λ j. (dispatch_steps-Quiet k ctx ss done.1).same j ∙ reported j })
        | inr (x, e) ↦ rw (e, dispatch_steps) (record { same = reported })
      ]
