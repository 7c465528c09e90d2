-- ===== src/Core/Event.antt =====
-- crates/vcli-core/src/events.rs: what the daemon reports. A step that the code serialises to JSON
-- (`serde_json::to_value`, a derived serialisation) is the step itself here, and the JSON object
-- that names the winner of a conflict is the winner.
use vcli.Prelude.{ℕ, String, Option, none, some, List, ℤ}
use vcli.Core.State.{ProgramState}
use vcli.Core.Predicate.{Point}
use vcli.Core.Program.{ProgramId, Step}

pub data EventData : Type 0 where
  program_submitted : ProgramId → String → EventData
  program_state_changed : ProgramId → ProgramState → ProgramState → String → EventData
  program_completed : ProgramId → Option String → EventData
  program_failed : ProgramId → String → Option String → Option String → EventData
  program_resumed : ProgramId → ℕ → EventData
  watch_fired : ProgramId → ℕ → String → EventData
  action_dispatched : ProgramId → Step → Option Point → EventData
  action_deferred : ProgramId → List Step → ProgramId → EventData
  tick_frame_skipped : String → EventData
  daemon_pressure : ℕ → EventData
  stream_dropped : ℕ → ℤ → EventData
  capture_permission_missing : String → EventData
  daemon_started : String → EventData
  daemon_stopped : EventData

pub record Event : Type 0 where
  pub at : ℤ
  pub content : EventData

-- `program_id_of` of crates/vcli-daemon/src/persist.rs.
abbrev pub program_id_of : EventData → Option ProgramId
program_id_of (program_submitted id _) = some id
program_id_of (program_state_changed id _ _ _) = some id
program_id_of (program_completed id _) = some id
program_id_of (program_failed id _ _ _) = some id
program_id_of (program_resumed id _) = some id
program_id_of (watch_fired id _ _) = some id
program_id_of (action_dispatched id _ _) = some id
program_id_of (action_deferred id _ _) = some id
program_id_of (tick_frame_skipped _) = none
program_id_of (daemon_pressure _) = none
program_id_of (stream_dropped _ _) = none
program_id_of (capture_permission_missing _) = none
program_id_of (daemon_started _) = none
program_id_of daemon_stopped = none
