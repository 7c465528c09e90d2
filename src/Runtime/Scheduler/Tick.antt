-- ===== src/Runtime/Scheduler/Tick.antt =====
-- `tick_once` and `run_until_shutdown`.
use vcli.Prelude.{Bool, true, false, Option, none, some, List, [], ◌∷◌, ◌++◌, ℤ}
use vcli.Core.State.{waiting, running}
use vcli.Core.Predicate.{Frame}
use vcli.Core.Event.{tick_frame_skipped}
use vcli.Perception.State.{clear}
use vcli.Runtime.Program.{SchedulerCommand}
use vcli.Runtime.Arbiter.{resolve}
use vcli.Runtime.World.{Env, unix_ms}
use vcli.Runtime.Scheduler.State.{Scheduler, report, ids_in}
use vcli.Runtime.Scheduler.Commands.{drain_commands}
use vcli.Runtime.Scheduler.Watching.{start_waiting}
use vcli.Runtime.Scheduler.Firing.{
  evaluate_running, fire_directly, carry_out_all, apply_evals, apply_fires,
}
use vcli.Runtime.Scheduler.Stepping.{step_bodies}

module _ (env : Env) where
  -- `self.perception.clear(); let now_ms = self.clock.unix_ms();`
  abbrev pub open_tick : Scheduler → ℤ × Scheduler
  open_tick s =
      let (now, w) = unix_ms env (record s.world { perception = clear s.world.perception }) in
      (now, record s { world = w })

  -- The tick with a frame, at its time.
  unfoldable pub tick_frame : Frame → ℤ → Scheduler → Scheduler
  tick_frame frame now s0 =
      let s1 = start_waiting env frame now (ids_in waiting s0.programs) s0 in
      let running_ids = ids_in running s1.programs in
      let (offers, w) = evaluate_running env frame now s1.programs running_ids s1.world in
      let (direct, s2) = fire_directly env offers.direct_fires (record s1 { world = w }) in
      let (chosen, s3) = carry_out_all env frame now (resolve offers.candidates) s2 in
      let s4 = apply_fires now (direct ++ chosen) (apply_evals offers.evals s3) in
      step_bodies env frame now running_ids s4

  -- `none` is a capture that failed.
  unfoldable pub tick_once : Option Frame → Scheduler → Scheduler
  unfolding tick_frame
  tick_once none s = report env (tick_frame_skipped "capture_failed") s
  tick_once (some frame) s = let (now, s') = open_tick s in tick_frame frame now s'

  -- One turn of the loop for each entry: the commands that arrived, and the captured frame. It ends
  -- at a shutdown, or where the schedule does.
  unfoldable pub run_until_shutdown :
      List (List SchedulerCommand × Option Frame) → Scheduler → Bool × Scheduler
  run_until_shutdown [] s = (false, s)
  run_until_shutdown ((commands, grabbed) ∷ rest) s =
      let (stop, left, s') = drain_commands env commands s in
      elim stop [ true ↦ (true, s') | false ↦ run_until_shutdown rest (tick_once grabbed s') ]
