-- ===== src/Runtime/Scheduler/Tracked/Changes.antt =====
-- How a change of the table and a report keep the table and the log in agreement.
use vcli.Prelude.{
  ◌≡◌, refl, sym, ap, Option, none, some, arith, ◌==◌, if◌then◌else◌, get, map_option, get-adjust,
}
use vcli.Core.State.{ProgramState}
use vcli.Core.Program.{ProgramId}
use vcli.Core.Event.{EventData}
use vcli.Runtime.Program.{RunningProgram}
use vcli.Runtime.World.{Env, World}
use vcli.Runtime.Scheduler.State.{Scheduler, report, change}
use vcli.Runtime.Scheduler.Log.{
  IsTracked, state_in, state_of, said, last_state, report-IsTracked, Quiet-IsTracked,
}

pub state_in-map :
    (f : RunningProgram → RunningProgram) (x : Option RunningProgram)
    → ((rp : RunningProgram) → (f rp).state ≡ rp.state)
    → state_in (map_option f x) ≡ state_in x
state_in-map f none same = refl
state_in-map f (some rp) same = ap some (same rp)

-- A change that leaves the state of the program alone.
pub change-IsTracked :
    (s : Scheduler) (k : ProgramId) (f : RunningProgram → RunningProgram)
    → IsTracked s
    → ((rp : RunningProgram) → (f rp).state ≡ rp.state)
    → IsTracked (change k f s)
unfolding change
change-IsTracked s k f h same =
    Quiet-IsTracked s _ h (record { same = λ j. refl })
      (λ j. ground (arith, get-adjust k j f s.programs, state_in-map f (get j s.programs) same))

-- An event that says nothing of a state.
pub neutral-IsTracked :
    (env : Env) (d : EventData) (s : Scheduler)
    → IsTracked s
    → ((k : ProgramId) (x : Option ProgramState) → said k d x ≡ x)
    → IsTracked (report env d s)
neutral-IsTracked env d s h silent =
    report-IsTracked env d s s h refl (λ k. sym (silent k (state_of k s)))

-- A change of the state of a program, with the event that says so.
pub enter-IsTracked :
    (env : Env) (d : EventData) (s : Scheduler) (k : ProgramId)
    (f : RunningProgram → RunningProgram) (rp : RunningProgram)
    → IsTracked s
    → get k s.programs ≡ some rp
    → ((j : ProgramId) (x : Option ProgramState)
        → said j d x ≡ (if k == j then some (f rp).state else x))
    → IsTracked (report env d (change k f s))
unfolding change
enter-IsTracked env d s k f rp h e says =
    report-IsTracked env d s _ h refl
      (λ j. ground (arith, get-adjust k j f s.programs, says j (state_of j s)))

pub world-IsTracked :
    (s : Scheduler) (w : World)
    → IsTracked s
    → w.events ≡ s.world.events
    → IsTracked (record s { world = w })
world-IsTracked s w h e =
    Quiet-IsTracked s _ h (record { same = λ j. ap (last_state j) e }) (λ j. refl)

pub get-change :
    (k : ProgramId) (f : RunningProgram → RunningProgram) (s : Scheduler) (q : RunningProgram)
    → get k s.programs ≡ some q
    → get k (change k f s).programs ≡ some (f q)
unfolding change
get-change k f s q e = ground (arith, get-adjust k k f s.programs)
