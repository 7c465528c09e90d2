-- ===== src/Daemon/Mirror.antt =====
-- The scheduler and the store together: what the pump makes of a run's events.
use vcli.Prelude.{
  ◌≡◌, Option, none, some, arith, ℤ, refl, sym, ap, ◌∙◌, ◌⊎◌, inl, inr, List, [], ◌∷◌, ◌==◌,
  Bool-cases, Option-cases, get,
}
use vcli.Core.State.{ProgramState}
use vcli.Core.Program.{ProgramId}
use vcli.Core.Event.{EventData, program_id_of, Event}
use vcli.Store.Rows.{Store, ProgramRow, find_row, set_state}
use vcli.Daemon.Persist.{pump_event, spawn_event_pump}
use vcli.Runtime.Program.{RunningProgram, SchedulerCommand}
use vcli.Runtime.World.{Env, World}
use vcli.Runtime.Scheduler.State.{Scheduler}
use vcli.Runtime.Scheduler.Tick.{run_until_shutdown}
use vcli.Runtime.Scheduler.Log.{said, track, last_state, state_in}
use vcli.Runtime.Scheduler.Tracked.Run.{run-IsTracked}
use vcli.Daemon.Rows.{row_after, if_about, find_row-pump_event}
use vcli.Core.Predicate.{Frame}

abbrev pub row_state : Option ProgramRow → Option ProgramState
row_state none = none
row_state (some r) = some r.state

-- The column `state` of a program.
abbrev pub stored_state : ProgramId → Store → Option ProgramState
stored_state k s = row_state (find_row k s.programs)

-- One event writes the state that it says.
row_said :
    (d : EventData) (at : ℤ) (k : ProgramId) (r : ProgramRow)
    → row_state (if_about (program_id_of d) k (row_after d at) (some r)) ≡ said k d (some r.state)
unfolding set_state
row_said d at k r = ground arith

-- A row is never lost, and its state follows the log.
pump_row :
    (s : Store) (ev : Event) (k : ProgramId) (r : ProgramRow)
    → find_row k s.programs ≡ some r
    → (q : ProgramRow) × (find_row k (pump_event s ev).programs ≡ some q)
      × (some q.state ≡ said k ev.content (some r.state))
pump_row s ev k r e =
    let written = row_after ev.content ev.at in
    let after = find_row-pump_event s k ev in
    let says = row_said ev.content ev.at k r in
    elim (Option-cases (program_id_of ev.content)) [
      | inl none_about ↦ (r, ground arith, ground arith)
      | inr (j, about) ↦ elim (Bool-cases (j == k)) [
        | inl hit ↦ (written r, ground arith, ground arith)
        | inr miss ↦ (r, ground arith, ground arith)
      ]
    ]

pump_rows :
    (evs : List Event) (s : Store) (k : ProgramId) (r : ProgramRow)
    → find_row k s.programs ≡ some r
    → stored_state k (spawn_event_pump s evs) ≡ track k (some r.state) evs
unfolding spawn_event_pump track
pump_rows [] s k r e = rw e refl
pump_rows (ev ∷ evs) s k r e =
    let (q, found, says) = pump_row s ev k r e in
    pump_rows evs (pump_event s ev) k q found ∙ ap (λ x. track k x evs) says

said_over :
    (d : EventData) (k : ProgramId) (x : Option ProgramState)
    → ((said k d none ≡ none) × (said k d x ≡ x)) ⊎ (said k d x ≡ said k d none)
said_over d k x = ground arith

-- A log that says a state says it whatever came before.
track_over :
    (evs : List Event) (k : ProgramId) (x : Option ProgramState) (st : ProgramState)
    → track k none evs ≡ some st
    → track k x evs ≡ some st
unfolding track
track_over [] k x st e = cc
track_over (ev ∷ evs) k x st e = elim (said_over ev.content k x) [
  | inl silent ↦ rw silent.1 (track_over evs k x st (rw silent.0 at e))
  | inr spoken ↦ rw spoken e
]

abbrev pub new_scheduler : World → Scheduler
new_scheduler w = record { programs = []; world = record w { events = [] } }

-- After any run of the scheduler from its start, and the pump of all its events, the store's row of
-- every program that the scheduler holds, if there was one, has the state that the scheduler holds.
pub mirror :
    (env : Env) (schedule : List (List SchedulerCommand × Option Frame)) (w : World) (s : Store)
    (k : ProgramId) (r : ProgramRow) (rp : RunningProgram)
    → find_row k s.programs ≡ some r
    → get k (run_until_shutdown env schedule (new_scheduler w)).1.programs ≡ some rp
    → stored_state k
        (spawn_event_pump s (run_until_shutdown env schedule (new_scheduler w)).1.world.events)
      ≡ some rp.state
unfolding last_state
mirror env schedule w s k r rp e h =
    let end = (run_until_shutdown env schedule (new_scheduler w)).1 in
    let tracked =
      run-IsTracked env schedule (new_scheduler w) (record { at_id = λ j. unfold get in refl }) in
    pump_rows end.world.events s k r e
    ∙ track_over end.world.events k (some r.state) rp.state (sym (tracked.at_id k) ∙ ap state_in h)
