-- ===== src/Runtime/Scheduler/Tracked/Commands.antt =====
-- The commands keep the table and the log in agreement.
use vcli.Prelude.{
  String, ◌≡◌, refl, inl, inr, Option, some, List, [], ◌∷◌, arith, ◌==◌, if◌then◌else◌, Bool-cases,
  Option-cases, get, get-put,
}
use vcli.Core.State.{ProgramState, cancelled}
use vcli.Core.Program.{ProgramId}
use vcli.Core.Event.{EventData}
use vcli.Runtime.Program.{
  RunningProgram, SchedulerCommand, submit_validated, cancel, start, resume_running, shutdown,
}
use vcli.Runtime.World.{Env, emit, unix_ms}
use vcli.Runtime.Scheduler.State.{Scheduler, report, enter}
use vcli.Runtime.Scheduler.Commands.{
  install, cancelled_by, started_by, obey, is_shutdown, drain_commands,
}
use vcli.Runtime.Scheduler.Log.{last_state-append, IsTracked, said, last_state}
use vcli.Runtime.Scheduler.Tracked.Changes.{enter-IsTracked, world-IsTracked}

module _ (env : Env) where
  pub cancelled-IsTracked :
      (k : ProgramId) (reason : String) (s : Scheduler)
      → IsTracked s
      → IsTracked (cancelled_by env k reason (get k s.programs) s)
  cancelled-IsTracked k reason s h = elim (Option-cases (get k s.programs)) [
    | inl e ↦ rw e h
    | inr (rp, e) ↦ rw e (enter-IsTracked env _ s k (enter cancelled) rp h e (λ j x. refl))
  ]

  pub started-IsTracked :
      (k : ProgramId) (s : Scheduler)
      → IsTracked s
      → IsTracked (started_by env k (get k s.programs) s)
  unfolding unix_ms
  started-IsTracked k s h = elim (Option-cases (get k s.programs)) [
    | inl e ↦ rw e h
    | inr (rp, e) ↦
        rw e (enter-IsTracked env _ _ k _ rp (world-IsTracked s _ h refl) e (λ j x. refl))
  ]

  -- Two reports, then the program is put into the table.
  pub install-IsTracked :
      (d e : EventData) (s : Scheduler) (k : ProgramId) (rp : RunningProgram)
      → IsTracked s
      → ((j : ProgramId) (x : Option ProgramState)
          → said j e (said j d x) ≡ (if k == j then some rp.state else x))
      → IsTracked (install env k rp (report env e (report env d s)))
  unfolding report emit
  install-IsTracked d e s k rp h says = record {
    at_id = λ j.
        rw (last_state-append, last_state-append)
          (ground
            (arith, get-put k j rp s.programs, says j (last_state j s.world.events), h.at_id j));
  }

  pub obey-IsTracked :
      (c : SchedulerCommand) (s : Scheduler) → IsTracked s → IsTracked (obey env c s)
  unfolding obey unix_ms
  obey-IsTracked (submit_validated k program assets) s h =
      install-IsTracked _ _ s k _ h (λ j x. refl)
  obey-IsTracked (cancel k reason) s h = cancelled-IsTracked k reason s h
  obey-IsTracked (start k) s h = started-IsTracked k s h
  obey-IsTracked (resume_running k n program assets) s h =
      install-IsTracked _ _ _ k _ (world-IsTracked s _ h refl) (λ j x. ground arith)
  obey-IsTracked shutdown s h = h

  pub drain-IsTracked :
      (cs : List SchedulerCommand) (s : Scheduler)
      → IsTracked s
      → IsTracked (drain_commands env cs s).2
  unfolding drain_commands
  drain-IsTracked [] s h = h
  drain-IsTracked (c ∷ cs) s h = elim (Bool-cases (is_shutdown c)) [
    | inl e ↦ rw (e, drain_commands) h
    | inr e ↦ rw (e, drain_commands) (drain-IsTracked cs (obey env c s) (obey-IsTracked c s h))
  ]
