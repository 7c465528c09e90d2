-- ===== src/Runtime/Program.antt =====
-- crates/vcli-runtime/src/program.rs, the state of body.rs, and command.rs.
use vcli.Prelude.{
  ℕ, String, Bool, false, not, Option, none, some, List, [], leb, ◌==◌, length, count, Assoc, Dict,
  values, ℤ,
}
use vcli.Core.State.{ProgramState, pending}
use vcli.Core.Program.{OnTimeout, ProgramId, Program}

pub record WatchRuntime : Type 0 where
  pub last_fired_ms : Option ℤ
  pub last_truthy : Bool
  pub retired : Bool

abbrev pub default_watch : WatchRuntime
default_watch = record { last_fired_ms = none; last_truthy = false; retired = false }

-- A wait of the body: `Sleep { wake_at_ms }`, `WaitFor { predicate, deadline_ms, on_timeout }`.
pub data BodyDefer : Type 0 where
  sleep : ℤ → BodyDefer
  wait_for : String → ℤ → OnTimeout → BodyDefer

-- `body_state` is the deferral of `BodyState`.
pub record RunningProgram : Type 0 where
  pub program : Program
  pub assets : Dict (List ℕ)
  pub state : ProgramState
  pub running_since_ms : Option ℤ
  pub body_cursor : Option ℕ
  pub watch_state : Assoc WatchRuntime
  pub resumed_from : Option ℕ
  pub body_state : Option BodyDefer

-- `RunningProgram::pending` and `pending_with_assets`.
abbrev pub pending_with_assets : Program → Dict (List ℕ) → RunningProgram
pending_with_assets p assets = record {
  program = p;
  assets = assets;
  state = pending;
  running_since_ms = none;
  body_cursor = none;
  watch_state = [];
  resumed_from = none;
  body_state = none;
}

unfoldable pub body_complete : RunningProgram → Bool
body_complete rp = elim rp.body_cursor [
  | some n ↦ leb (length rp.program.body) n
  | none ↦ length rp.program.body == 0
]

unfoldable pub active_watch_count : RunningProgram → ℕ
active_watch_count rp = count (λ w. not w.retired) (values rp.watch_state)

pub data SchedulerCommand : Type 0 where
  submit_validated : ProgramId → Program → Dict (List ℕ) → SchedulerCommand
  cancel : ProgramId → String → SchedulerCommand
  start : ProgramId → SchedulerCommand
  resume_running : ProgramId → ℕ → Program → Dict (List ℕ) → SchedulerCommand
  shutdown : SchedulerCommand
