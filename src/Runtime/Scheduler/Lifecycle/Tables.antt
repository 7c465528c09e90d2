-- ===== src/Runtime/Scheduler/Lifecycle/Tables.antt =====
-- The ids of the table are those of the commands: a tick adds none and removes none.
use vcli.Prelude.{
  ℕ, ◌≡◌, refl, sym, ap, subst, ◌∙◌, inl, inr, ◌&&◌, Option, none, some, List, [], ◌∷◌, Bool-cases,
  Option-cases, get, keys, keys-adjust, Result, ok, err, ℤ, Distinct,
}
use vcli.Core.State.{waiting, running, completed, failed, state_eq, cancelled}
use vcli.Core.Predicate.{Frame}
use vcli.Core.Program.{ProgramId}
use vcli.Runtime.Program.{RunningProgram, body_complete, SchedulerCommand}
use vcli.Runtime.World.{Env}
use vcli.Runtime.Scheduler.State.{Scheduler, report, change, enter, ids_in}
use vcli.Runtime.Scheduler.Watching.{WatchFire, Checks}
use vcli.Runtime.Scheduler.Firing.{
  Fired, after_dispatch, defer_loser, carry_out, carry_out_all, note_checks, apply_evals, note_fire,
  apply_fires,
}
use vcli.Runtime.Scheduler.Stepping.{complete, no_watches_left, advance, conclude, step_bodies}
use vcli.Runtime.Scheduler.Tick.{open_tick, tick_frame, tick_once, run_until_shutdown}
use vcli.Runtime.Scheduler.Commands.{obey, drain_commands, is_shutdown, cancelled_by, started_by}
use vcli.Runtime.Program.{submit_validated, cancel, start, resume_running, shutdown}
use vcli.Runtime.Error.{RuntimeError}
use vcli.Runtime.Arbiter.{Decision}
use vcli.Runtime.Body.{StepOutcome}
use vcli.Runtime.Scheduler.Lifecycle.Phases.{fire_directly-programs}
use vcli.Runtime.Scheduler.Lifecycle.Starting.{start_waiting-keys}
use vcli.Runtime.Scheduler.Lifecycle.Keys.{put-Distinct}

change-keys :
    (k : ProgramId) (f : RunningProgram → RunningProgram) (s : Scheduler)
    → keys (change k f s).programs ≡ keys s.programs
unfolding change
change-keys k f s = keys-adjust k f s.programs

apply_evals-keys :
    (es : List (ProgramId × Checks)) (s : Scheduler)
    → keys (apply_evals es s).programs ≡ keys s.programs
unfolding apply_evals
apply_evals-keys [] s = refl
apply_evals-keys ((k, c) ∷ rest) s = apply_evals-keys rest _ ∙ change-keys k (note_checks c) s

apply_fires-keys :
    (now : ℤ) (fs : List Fired) (s : Scheduler)
    → keys (apply_fires now fs s).programs ≡ keys s.programs
unfolding apply_fires
apply_fires-keys now [] s = refl
apply_fires-keys now (f ∷ rest) s =
    apply_fires-keys now rest _ ∙ change-keys f.program_id (note_fire now f.index) s

module _ (env : Env) (frame : Frame) (now : ℤ) where
  after_dispatch-keys :
      (k : ProgramId) (f : WatchFire) (rp : RunningProgram) (r : Result RuntimeError (Unit {0}))
      (s : Scheduler)
      → keys (after_dispatch env frame now k f rp r s).1.programs ≡ keys s.programs
  unfolding report
  after_dispatch-keys k f rp (ok _) s = refl
  after_dispatch-keys k f rp (err x) s = change-keys k (enter failed) s

  carry_out-keys :
      (d : Decision WatchFire) (s : Scheduler)
      → keys (carry_out env frame now d s).1.programs ≡ keys s.programs
  unfolding carry_out report
  carry_out-keys d s = elim (Bool-cases d.dispatch) [
    | inl e ↦ elim (Option-cases (get d.program_id s.programs)) [
      | inl x ↦ rw (e, carry_out, keys, x) refl
      | inr (rp, x) ↦ rw (e, carry_out, keys, x) (after_dispatch-keys d.program_id d.payload rp _ _)
    ]
    | inr e ↦ rw (e, carry_out, keys) (deferred d.loser_of)
  ]
    where
      deferred :
          (l : Option ProgramId)
          → keys (defer_loser env frame now d.program_id d.payload l s).1.programs ≡ keys s.programs
      deferred none = refl
      deferred (some w) = refl

  carry_out_all-keys :
      (ds : List (Decision WatchFire)) (s : Scheduler)
      → keys (carry_out_all env frame now ds s).1.programs ≡ keys s.programs
  unfolding carry_out_all
  carry_out_all-keys [] s = refl
  carry_out_all-keys (d ∷ ds) s = carry_out_all-keys ds _ ∙ carry_out-keys d s

  complete-keys :
      (k : ProgramId) (rp : RunningProgram) (s : Scheduler)
      → keys (complete env k rp s).programs ≡ keys s.programs
  unfolding report
  complete-keys k rp s = change-keys k (enter completed) s

  conclude-keys :
      (k : ProgramId) (cursor : ℕ) (rp : RunningProgram) (o : StepOutcome) (s : Scheduler)
      → keys (conclude env k cursor rp o s).programs ≡ keys s.programs
  unfolding conclude report
  conclude-keys k cursor rp StepOutcome.advanced s =
      let rp' = advance env cursor rp in
      elim (Bool-cases (body_complete rp' && no_watches_left env rp')) [
        | inl over ↦ rw (over, keys) (complete-keys k rp' _ ∙ change-keys k (advance env cursor) s)
        | inr more ↦ rw (more, keys) (change-keys k (advance env cursor) s)
      ]
  conclude-keys k cursor rp StepOutcome.stalled s = refl
  conclude-keys k cursor rp StepOutcome.body_done s = elim (Bool-cases (no_watches_left env rp)) [
    | inl left ↦ rw (left, keys) (complete-keys k rp s)
    | inr busy ↦ rw (busy, keys) refl
  ]
  conclude-keys k cursor rp (StepOutcome.failed x) s = change-keys k (enter failed) s

  step_bodies-keys :
      (ks : List ProgramId) (s : Scheduler)
      → keys (step_bodies env frame now ks s).programs ≡ keys s.programs
  unfolding step_bodies
  step_bodies-keys [] s = refl
  step_bodies-keys (k ∷ ks) s = elim (Option-cases (get k s.programs)) [
    | inl e ↦ rw (e, keys) (step_bodies-keys ks s)
    | inr (rp, e) ↦ elim (Bool-cases (state_eq rp.state running)) [
      | inl live ↦
          rw (e, live, keys) (step_bodies-keys ks _ ∙ conclude-keys k _ _ _ _ ∙ change-keys k _ _)
      | inr idle ↦ rw (e, idle, keys) (step_bodies-keys ks s)
    ]
  ]

module _ (env : Env) where
  pub tick_once-keys :
      (grabbed : Option Frame) (s : Scheduler)
      → keys (tick_once env grabbed s).programs ≡ keys s.programs
  unfolding tick_once tick_frame report
  tick_once-keys none s = refl
  tick_once-keys (some frame) s =
      let (now, s0) = open_tick env s in
      step_bodies-keys env frame now _ _
      ∙ apply_fires-keys now _ _
      ∙ apply_evals-keys _ _
      ∙ carry_out_all-keys env frame now _ _
      ∙ ap keys (fire_directly-programs env _ _)
      ∙ start_waiting-keys env frame now (ids_in waiting s0.programs) s0

  obey-Distinct :
      (c : SchedulerCommand) (s : Scheduler)
      → Distinct (keys s.programs)
      → Distinct (keys (obey env c s).programs)
  unfolding obey report change
  obey-Distinct (submit_validated k program assets) s h = put-Distinct k _ s.programs h
  obey-Distinct (cancel k reason) s h = after_cancel (get k s.programs)
    where
      after_cancel :
          (x : Option RunningProgram) → Distinct (keys (cancelled_by env k reason x s).programs)
      after_cancel none = h
      after_cancel (some rp) = subst Distinct (sym (change-keys k (enter cancelled) s)) h
  obey-Distinct (start k) s h = after_start (get k s.programs)
    where
      after_start : (x : Option RunningProgram) → Distinct (keys (started_by env k x s).programs)
      after_start none = h
      after_start (some rp) = subst Distinct (sym (change-keys k _ s)) h
  obey-Distinct (resume_running k from_step program assets) s h = put-Distinct k _ s.programs h
  obey-Distinct shutdown s h = h

  drain-Distinct :
      (cs : List SchedulerCommand) (s : Scheduler)
      → Distinct (keys s.programs)
      → Distinct (keys (drain_commands env cs s).2.programs)
  unfolding drain_commands
  drain-Distinct [] s h = h
  drain-Distinct (c ∷ cs) s h = elim (Bool-cases (is_shutdown c)) [
    | inl e ↦ rw (e, keys, Distinct) h
    | inr e ↦ rw (e, keys, Distinct) (drain-Distinct cs _ (obey-Distinct c s h))
  ]

  -- A whole run keeps the ids of the table distinct.
  pub run-Distinct :
      (schedule : List (List SchedulerCommand × Option Frame)) (s : Scheduler)
      → Distinct (keys s.programs)
      → Distinct (keys (run_until_shutdown env schedule s).1.programs)
  unfolding run_until_shutdown
  run-Distinct [] s h = h
  run-Distinct ((commands, grabbed) ∷ rest) s h =
      let drained = drain-Distinct commands s h in
      elim (Bool-cases (drain_commands env commands s).0) [
        | inl e ↦ rw (e, run_until_shutdown, keys, Distinct) drained
        | inr e ↦
            rw (e, run_until_shutdown, keys, Distinct)
              (run-Distinct rest _ (subst Distinct (sym (tick_once-keys grabbed _)) drained))
      ]
