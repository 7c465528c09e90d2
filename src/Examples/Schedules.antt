-- ===== src/Examples/Schedules.antt =====
-- Runs of the scheduler and of the arbiter, and what the pump makes of their events.
use vcli.Prelude.{
  ℕ, ◌≡◌, refl, ◌↔◌, true, false, none, some, [], ◌∷◌, arith, length, get, put, adjust, lookup,
  insert, pos, negsuc, ◌+ℤ◌, ◌-ℤ◌, saturating_add, saturating_sub, decimal,
}
use vcli.Core.State.{running, completed}
use vcli.Store.Rows.{find_row}
use vcli.Runtime.Program.{WatchRuntime, RunningProgram, body_complete, active_watch_count}
use vcli.Runtime.World.{unix_ms, emit, send}
use vcli.Runtime.Scheduler.State.{report, change}
use vcli.Runtime.Scheduler.Watching.{fill_watches, start_waiting, check_watch, check_watches}
use vcli.Runtime.Scheduler.Firing.{
  evaluate_running, dispatch_steps, fire_directly, carry_out, carry_out_all, on_entry,
  note_truthies, note_retires, apply_evals, apply_fires,
}
use vcli.Runtime.Scheduler.Stepping.{conclude, step_bodies}
use vcli.Runtime.Scheduler.Tick.{tick_frame, tick_once, run_until_shutdown}
use vcli.Runtime.Scheduler.Log.{track, last_state, state_of, IsTracked}
use vcli.Runtime.Program.{start}
use vcli.Runtime.Arbiter.{Candidate, resolve, best}
use vcli.Runtime.Watches.{fire, decide, after_fire}
use vcli.Runtime.Watches.Firing.{IsDue, decide-IsDue}
use vcli.Runtime.Scheduler.Commands.{obey, drain_commands}
use vcli.Runtime.Scheduler.Commands.States.{commanded, obey-states}
use vcli.Runtime.Scheduler.Tracked.Run.{run-IsTracked}
use vcli.Runtime.Scheduler.Lifecycle.Moves.{AllMoved}
use vcli.Runtime.Scheduler.Lifecycle.Ticks.{tick_once-AllMoved, finished-stays, undisturbed}
use vcli.Perception.State.{clear}
use vcli.Runtime.Body.{
  step_once, begin_step, continue_step, trigger_fires, evaluate_named, dispatch_action, act_at,
  resolve_target,
}
use vcli.Perception.State.{clear}
use vcli.Runtime.Body.{
  step_once, begin_step, continue_step, trigger_fires, evaluate_named, dispatch_action, act_at,
  resolve_target,
}
use vcli.Daemon.Persist.{spawn_event_pump}
use vcli.Daemon.Mirror.{new_scheduler, stored_state, mirror}
use vcli.Examples.Data.{
  quiet_env, spot, plain, screen, empty_world, empty_scheduler, submission, held, three_programs,
  row, one_row,
}

empty-IsTracked : IsTracked empty_scheduler
unfolding get last_state track
empty-IsTracked = record { at_id = λ k. refl }

-- The body types its word in the first tick and the program ends there.
submission_end :
    state_of 7 (run_until_shutdown quiet_env submission empty_scheduler).1 ≡ some completed
unfolding run_until_shutdown drain_commands obey report emit unix_ms send change clear get put
    adjust tick_once tick_frame start_waiting fill_watches trigger_fires evaluate_running
    check_watches check_watch evaluate_named fire_directly carry_out_all carry_out dispatch_steps
    dispatch_action act_at resolve_target apply_evals note_truthies note_retires on_entry
    apply_fires step_bodies step_once begin_step continue_step conclude body_complete
    active_watch_count resolve best decide after_fire saturating_sub saturating_add ◌-ℤ◌ ◌+ℤ◌
    decimal insert lookup
submission_end = refl

typed_word : length (run_until_shutdown quiet_env submission empty_scheduler).1.world.inputs ≡ 1
unfolding run_until_shutdown drain_commands obey report emit unix_ms send change clear get put
    adjust tick_once tick_frame start_waiting fill_watches trigger_fires evaluate_running
    check_watches check_watch evaluate_named fire_directly carry_out_all carry_out dispatch_steps
    dispatch_action act_at resolve_target apply_evals note_truthies note_retires on_entry
    apply_fires step_bodies step_once begin_step continue_step conclude body_complete
    active_watch_count resolve best decide after_fire saturating_sub saturating_add ◌-ℤ◌ ◌+ℤ◌
    decimal insert lookup
typed_word = refl

-- The store follows the run.
mirror_example :
    stored_state 7 (
      spawn_event_pump one_row
        (run_until_shutdown quiet_env submission (new_scheduler empty_world)).1.world.events)
    ≡ some completed
unfolding run_until_shutdown drain_commands obey report emit unix_ms send change clear get put
    adjust tick_once tick_frame start_waiting fill_watches trigger_fires evaluate_running
    check_watches check_watch evaluate_named fire_directly carry_out_all carry_out dispatch_steps
    dispatch_action act_at resolve_target apply_evals note_truthies note_retires on_entry
    apply_fires step_bodies step_once begin_step continue_step conclude body_complete
    active_watch_count resolve best decide after_fire saturating_sub saturating_add ◌-ℤ◌ ◌+ℤ◌
    decimal insert lookup find_row
mirror_example = mirror quiet_env submission empty_world one_row 7 (row 7 running) ended refl refl
  where
    ended : RunningProgram
    ended = record (held completed plain) { running_since_ms = some (pos 2); body_cursor = some 1 }

run-IsTracked_example : IsTracked (run_until_shutdown quiet_env submission empty_scheduler).1
run-IsTracked_example = run-IsTracked quiet_env submission empty_scheduler empty-IsTracked

tick_once-AllMoved_example :
    AllMoved three_programs (tick_once quiet_env (some screen) three_programs)
tick_once-AllMoved_example =
    tick_once-AllMoved quiet_env (some screen) three_programs
      ((refl, (refl, tt)), ((refl, tt), (tt, tt)))

finished-stays_example :
    state_of 7
      (run_until_shutdown quiet_env
        (undisturbed quiet_env (some screen ∷ none ∷ []))
        (run_until_shutdown quiet_env submission empty_scheduler).1).1
    ≡ some completed
finished-stays_example =
    finished-stays quiet_env submission (some screen ∷ none ∷ []) empty_scheduler 7 completed tt
      refl submission_end

-- A start runs a cancelled program again.
obey-states_example :
    state_of 3 (obey quiet_env (start 3) three_programs)
    ≡ commanded 3 (start 3) (state_of 3 three_programs)
obey-states_example = obey-states quiet_env (start 3) three_programs 3

abbrev first : Candidate ℕ
first = record { program_id = 1; priority = pos 5; payload = 10 }

abbrev second : Candidate ℕ
second = record { program_id = 2; priority = pos 5; payload = 20 }

abbrev third : Candidate ℕ
third = record { program_id = 3; priority = negsuc 0; payload = 30 }

abbrev rested : WatchRuntime
rested = record { last_fired_ms = some (pos 10); last_truthy = false; retired = false }

-- 100 milliseconds after the last fire.
decide-IsDue_example :
    (decide spot rested true (pos 110) (pos 0) ≡ fire) ↔ IsDue spot rested true (pos 110) (pos 0)
decide-IsDue_example = decide-IsDue spot rested true (pos 110) (pos 0) (omega arith) (λ ms e. cc e)

due_at : decide spot rested true (pos 110) (pos 0) ≡ fire
unfolding decide saturating_sub ◌-ℤ◌
due_at = refl

refires :
    decide spot
      (record (after_fire spot (pos 10) rested) { last_truthy = false })
      true
      (pos 110)
      (pos 0)
    ≡ fire
unfolding decide after_fire saturating_sub ◌-ℤ◌
refires = refl
