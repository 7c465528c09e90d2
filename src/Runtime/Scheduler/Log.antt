-- ===== src/Runtime/Scheduler/Log.antt =====
-- The state of each program as the event log tells it, independent of the scheduler's tables.
use vcli.Prelude.{◌≡◌, refl, Option, none, some, List, [], ◌∷◌, ◌++◌, ◌==◌, if◌then◌else◌, get}
use vcli.Core.State.{ProgramState, running, completed, failed}
use vcli.Core.Program.{ProgramId}
use vcli.Core.Event.{
  EventData, program_state_changed, program_completed, program_failed, program_resumed, Event,
}
use vcli.Runtime.Program.{RunningProgram}
use vcli.Runtime.World.{Env, World, emit}
use vcli.Runtime.Scheduler.State.{Scheduler, report}

-- What an event says of the state of a program, after `x`.
abbrev pub said : ProgramId → EventData → Option ProgramState → Option ProgramState
said k (program_state_changed j _ to _) x = if j == k then some to else x
said k (program_completed j _) x = if j == k then some completed else x
said k (program_failed j _ _ _) x = if j == k then some failed else x
said k (program_resumed j _) x = if j == k then some running else x
said k _ x = x

unfoldable pub track : ProgramId → Option ProgramState → List Event → Option ProgramState
track k x [] = x
track k x (e ∷ es) = track k (said k e.content x) es

-- The last state that a log says.
unfoldable pub last_state : ProgramId → List Event → Option ProgramState
unfolding track
last_state k es = track k none es

track-append :
    (k : ProgramId) (x : Option ProgramState) (es fs : List Event)
    → track k x (es ++ fs) ≡ track k (track k x es) fs
unfolding track
track-append k x [] fs = refl
track-append k x (e ∷ es) fs = track-append k (said k e.content x) es fs

pub last_state-append :
    (k : ProgramId) (es : List Event) (e : Event)
    → last_state k (es ++ e ∷ []) ≡ said k e.content (last_state k es)
unfolding last_state track
last_state-append k es e = track-append k none es (e ∷ [])

abbrev pub state_in : Option RunningProgram → Option ProgramState
state_in none = none
state_in (some rp) = some rp.state

-- The state of a program as the scheduler's table holds it.
abbrev pub state_of : ProgramId → Scheduler → Option ProgramState
state_of k s = state_in (get k s.programs)

-- The table and the log agree on every program.
pub record IsTracked (s : Scheduler) : Type 0 where
  pub at_id : (k : ProgramId) → state_of k s ≡ last_state k s.world.events

-- A change of the table that the next event reports.
pub report-IsTracked :
    (env : Env) (d : EventData) (s t : Scheduler)
    → IsTracked s
    → t.world.events ≡ s.world.events
    → ((k : ProgramId) → state_of k t ≡ said k d (state_of k s))
    → IsTracked (report env d t)
unfolding report emit
report-IsTracked env d s t h e moved = record {
  at_id = λ k.
      rw (last_state-append k t.world.events (record { at = env.clock t.world.reads; content = d }))
        (cc (moved k, h.at_id k, e));
}

-- A world whose log says the same of every program.
pub record Quiet (v w : World) : Type 0 where
  pub same : (k : ProgramId) → last_state k w.events ≡ last_state k v.events

pub Quiet-IsTracked :
    (s t : Scheduler)
    → IsTracked s
    → Quiet s.world t.world
    → ((k : ProgramId) → state_of k t ≡ state_of k s)
    → IsTracked t
Quiet-IsTracked s t h q kept = record { at_id = λ k. cc (kept k, h.at_id k, q.same k) }
