-- ===== src/Runtime/Scheduler/Stepping.antt =====
-- The last part of `tick_once`: one step of the body of each running program.
use vcli.Prelude.{
  ℕ, ◌+◌, String, str_append, Bool, ◌&&◌, Option, none, some, List, [], ◌∷◌, ◌==◌, if◌then◌else◌,
  get, ℤ, decimal,
}
use vcli.Core.State.{running, completed, failed, state_eq}
use vcli.Core.Predicate.{Frame}
use vcli.Core.Program.{ProgramId}
use vcli.Core.Event.{program_state_changed, program_completed, program_failed}
use vcli.Runtime.Error.{reason_of}
use vcli.Runtime.Program.{BodyDefer, RunningProgram, body_complete, active_watch_count}
use vcli.Runtime.World.{Env}
use vcli.Runtime.Body.{StepOutcome, step_once}
use vcli.Runtime.Scheduler.State.{Scheduler, report, change, enter, context}

-- `format!("body[{cursor}]")`
abbrev pub body_place : ℕ → String
body_place cursor = str_append "body[" (str_append (decimal cursor) "]")

abbrev pub or_zero : Option ℕ → ℕ
or_zero none = 0
or_zero (some n) = n

module _ (env : Env) where
  abbrev pub complete : ProgramId → RunningProgram → Scheduler → Scheduler
  complete k rp s = report env (program_completed k rp.program.on_complete) (
      report env (program_state_changed k running completed "body_complete")
        (change k (enter completed) s))

  abbrev pub no_watches_left : RunningProgram → Bool
  no_watches_left rp = active_watch_count rp == 0

  abbrev pub advance : ℕ → RunningProgram → RunningProgram
  advance cursor rp = record rp { body_cursor = some (cursor + 1) }

  -- `rp` is the program with the deferral of this step.
  unfoldable pub conclude : ProgramId → ℕ → RunningProgram → StepOutcome → Scheduler → Scheduler
  conclude k cursor rp StepOutcome.advanced s =
      let rp' = advance cursor rp in
      let s' = change k (advance cursor) s in
      if body_complete rp' && no_watches_left rp' then complete k rp' s' else s'
  conclude k cursor rp StepOutcome.stalled s = s
  conclude k cursor rp StepOutcome.body_done s = if no_watches_left rp then complete k rp s else s
  conclude k cursor rp (StepOutcome.failed e) s =
      report env (program_failed k (reason_of e) (some (body_place cursor)) rp.program.on_fail)
        (change k (enter failed) s)

abbrev pub with_deferral : Option BodyDefer → RunningProgram → RunningProgram
with_deferral d rp = record rp { body_state = d }

module _ (env : Env) (frame : Frame) (now : ℤ) where
  abbrev pub step_program : ProgramId → RunningProgram → Scheduler → Scheduler
  step_program k rp s =
      let cursor = or_zero rp.body_cursor in
      let (o, d, w) =
        step_once env (context frame now k rp) rp.program.body cursor rp.body_state s.world in
      conclude env k cursor (with_deferral d rp) o
        (change k (with_deferral d) (record s { world = w }))

  -- A program whose dispatch failed is no longer running, which is the same test.
  abbrev pub step_if_running : ProgramId → Option RunningProgram → Scheduler → Scheduler
  step_if_running k none s = s
  step_if_running k (some rp) s = if state_eq rp.state running then step_program k rp s else s

  unfoldable pub step_bodies : List ProgramId → Scheduler → Scheduler
  unfolding conclude
  step_bodies [] s = s
  step_bodies (k ∷ ks) s = step_bodies ks (step_if_running k (get k s.programs) s)
