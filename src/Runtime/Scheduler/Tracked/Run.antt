-- ===== src/Runtime/Scheduler/Tracked/Run.antt =====
-- A whole run keeps the table and the log in agreement.
use vcli.Prelude.{refl, inl, inr, Option, none, some, List, [], ◌∷◌, Bool-cases, ℤ}
use vcli.Core.State.{running, waiting}
use vcli.Core.Predicate.{Frame}
use vcli.Runtime.Program.{SchedulerCommand}
use vcli.Runtime.World.{Env, unix_ms}
use vcli.Runtime.Scheduler.State.{Scheduler, ids_in}
use vcli.Runtime.Scheduler.Commands.{drain_commands}
use vcli.Runtime.Scheduler.Watching.{start_waiting}
use vcli.Runtime.Scheduler.Log.{IsTracked}
use vcli.Runtime.Scheduler.Quiet.{events-evaluate_running}
use vcli.Runtime.Scheduler.Tick.{tick_frame, tick_once, run_until_shutdown}
use vcli.Runtime.Scheduler.Tracked.Changes.{neutral-IsTracked, world-IsTracked}
use vcli.Runtime.Scheduler.Tracked.Commands.{drain-IsTracked}
use vcli.Runtime.Scheduler.Tracked.Phases.{
  start_waiting-IsTracked, fire_directly-IsTracked, carry_out_all-IsTracked, apply_evals-IsTracked,
  apply_fires-IsTracked, step_bodies-IsTracked,
}

module _ (env : Env) where
  pub tick_frame-IsTracked :
      (frame : Frame) (now : ℤ) (s : Scheduler)
      → IsTracked s
      → IsTracked (tick_frame env frame now s)
  unfolding tick_frame
  tick_frame-IsTracked frame now s h =
      let started = start_waiting-IsTracked env frame now (ids_in waiting s.programs) s h in
      let s1 = start_waiting env frame now (ids_in waiting s.programs) s in
      step_bodies-IsTracked env frame now (ids_in running s1.programs) _ (
        apply_fires-IsTracked now _ _ (
          apply_evals-IsTracked _ _ (
            carry_out_all-IsTracked env frame now _ _ (
              fire_directly-IsTracked env _ _ (
                world-IsTracked s1 _ started (
                  events-evaluate_running env frame now s1.programs (ids_in running s1.programs)
                    s1.world))))))

  pub tick_once-IsTracked :
      (grabbed : Option Frame) (s : Scheduler) → IsTracked s → IsTracked (tick_once env grabbed s)
  unfolding tick_once unix_ms
  tick_once-IsTracked none s h = neutral-IsTracked env _ s h (λ k x. refl)
  tick_once-IsTracked (some frame) s h = tick_frame-IsTracked frame _ _ (world-IsTracked s _ h refl)

  -- If the state that the scheduler holds for a program is the last one that its events report, and
  -- a program that it does not hold is in no event of a state, which holds of a new scheduler, then
  -- so it is after every run of the loop, whatever commands arrive and whatever the screen shows.
  pub run-IsTracked :
      (schedule : List (List SchedulerCommand × Option Frame)) (s : Scheduler)
      → IsTracked s
      → IsTracked (run_until_shutdown env schedule s).1
  unfolding run_until_shutdown
  run-IsTracked [] s h = h
  run-IsTracked ((commands, grabbed) ∷ rest) s h =
      let drained = drain-IsTracked env commands s h in
      elim (Bool-cases (drain_commands env commands s).0) [
        | inl e ↦ rw (e, run_until_shutdown) drained
        | inr e ↦
            rw (e, run_until_shutdown)
              (run-IsTracked rest _ (tick_once-IsTracked grabbed _ drained))
      ]
