-- ===== src/Runtime/Scheduler/State.antt =====
-- The fields of `Scheduler` that change. `programs` is the hash map in its order of iteration.
use vcli.Prelude.{some, List, keep, Assoc, adjust, keys, ℤ}
use vcli.Core.State.{ProgramState, state_eq}
use vcli.Core.Predicate.{Frame}
use vcli.Core.Program.{ProgramId}
use vcli.Core.Event.{EventData}
use vcli.Perception.State.{Context}
use vcli.Runtime.Program.{RunningProgram}
use vcli.Runtime.World.{Env, World, emit}

pub record Scheduler : Type 0 where
  pub programs : Assoc RunningProgram
  pub world : World

-- `self.event.emit(…)`
unfoldable pub report : Env → EventData → Scheduler → Scheduler
report env d s = record s { world = emit env d s.world }

-- A change of the program of an id that is in the map.
unfoldable pub change : ProgramId → (RunningProgram → RunningProgram) → Scheduler → Scheduler
change k f s = record s { programs = adjust k f s.programs }

abbrev pub enter : ProgramState → RunningProgram → RunningProgram
enter st rp = record rp { state = st }

-- The ids of the programs in one state, `iter().filter(…).map(…).collect()`.
abbrev pub ids_in : ProgramState → Assoc RunningProgram → List ProgramId
ids_in st m = keys (keep (λ e. state_eq e.1.state st) m)

-- What a tick hands to every evaluation of one program.
abbrev pub context : Frame → ℤ → ProgramId → RunningProgram → Context
context frame now k rp = record {
  predicates = rp.program.predicates;
  frame = frame;
  now_ms = now;
  assets = rp.assets;
  program = some k;
}
