-- ===== src/Runtime/Scheduler/Commands.antt =====
-- `drain_commands`: the commands that wait in the channel, in order, up to a shutdown.
use vcli.Prelude.{String, Bool, true, false, Option, none, some, List, [], ◌∷◌, get, put, ℤ}
use vcli.Core.State.{pending, waiting, running, failed, cancelled}
use vcli.Core.Program.{ProgramId}
use vcli.Core.Event.{program_submitted, program_state_changed, program_resumed}
use vcli.Runtime.Program.{
  RunningProgram, pending_with_assets, SchedulerCommand, submit_validated, cancel, start,
  resume_running, shutdown,
}
use vcli.Runtime.World.{Env, unix_ms}
use vcli.Runtime.Scheduler.State.{Scheduler, report, change, enter}
pub mod States

abbrev pub is_shutdown : SchedulerCommand → Bool
is_shutdown shutdown = true
is_shutdown _ = false

module _ (env : Env) where
  abbrev pub install : ProgramId → RunningProgram → Scheduler → Scheduler
  install k rp s = record s { programs = put k rp s.programs }

  abbrev pub cancelled_by : ProgramId → String → Option RunningProgram → Scheduler → Scheduler
  cancelled_by k reason none s = s
  cancelled_by k reason (some rp) s =
      report env (program_state_changed k rp.state cancelled reason) (change k (enter cancelled) s)

  abbrev pub run_from : ℤ → RunningProgram → RunningProgram
  run_from now rp = record rp { state = running; running_since_ms = some now }

  abbrev pub started_by : ProgramId → Option RunningProgram → Scheduler → Scheduler
  started_by k none s = s
  started_by k (some rp) s =
      let (now, w) = unix_ms env s.world in
      report env (program_state_changed k rp.state running "start")
        (change k (run_from now) (record s { world = w }))

  -- One command that is not a shutdown.
  unfoldable pub obey : SchedulerCommand → Scheduler → Scheduler
  obey (submit_validated k program assets) s =
      install k (enter waiting (pending_with_assets program assets)) (
        report env (program_state_changed k pending waiting "submitted")
          (report env (program_submitted k program.name) s))
  obey (cancel k reason) s = cancelled_by k reason (get k s.programs) s
  obey (start k) s = started_by k (get k s.programs) s
  obey (resume_running k from_step program assets) s =
      let (now, w) = unix_ms env s.world in
      let rp = run_from now (pending_with_assets program assets) in
      install k (record rp { body_cursor = some from_step; resumed_from = some from_step })
        (report env (program_resumed k from_step)
          (report env (program_state_changed k failed running "resume") (record s { world = w })))
  obey shutdown s = s

  -- Whether a shutdown was seen, the commands left behind it, and the scheduler.
  unfoldable pub drain_commands :
      List SchedulerCommand → Scheduler → Bool × List SchedulerCommand × Scheduler
  unfolding obey
  drain_commands [] s = (false, [], s)
  drain_commands (c ∷ cs) s = elim (is_shutdown c) [
    | true ↦ (true, cs, s)
    | false ↦ drain_commands cs (obey c s)
  ]
