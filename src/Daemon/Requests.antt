-- ===== src/Daemon/Requests.antt =====
-- crates/vcli-ipc/src/wire, crates/vcli-core/src/error.rs: the requests that the daemon answers and
-- its responses. A JSON result is the value of what it holds.
use vcli.Prelude.{ℕ, String, Bool, Option, none, List, Result, ℤ}
use vcli.Core.Program.{ProgramId}
use vcli.Store.Rows.{ProgramRow}
use vcli.Store.Gc.{GcReport}

pub data ErrorCode : Type 0 where
  invalid_program unknown_program bad_state_transition permission_denied capture_failed : ErrorCode
  daemon_busy not_resumable resume_precondition_failed internal : ErrorCode

unfoldable pub as_str : ErrorCode → String
as_str invalid_program = "invalid_program"
as_str unknown_program = "unknown_program"
as_str bad_state_transition = "bad_state_transition"
as_str permission_denied = "permission_denied"
as_str capture_failed = "capture_failed"
as_str daemon_busy = "daemon_busy"
as_str not_resumable = "not_resumable"
as_str resume_precondition_failed = "resume_precondition_failed"
as_str internal = "internal"

-- The fields for a place in a text are never filled in by the daemon.
pub record ErrorPayload : Type 0 where
  pub code : ErrorCode
  pub message : String
  pub path : Option String
  pub hint : Option String

-- `ErrorPayload::simple`
abbrev pub simple : ErrorCode → String → ErrorPayload
simple code message = record { code = code; message = message; path = none; hint = none }

abbrev pub RequestId : Type 0
RequestId = ℕ

-- The program of a submission is its JSON text. `other` is a request that no handler serves.
pub data RequestOp : Type 0 where
  health shutdown gc : RequestOp
  submit : String → Option String → RequestOp
  list : Option String → RequestOp
  status cancel start : ProgramId → RequestOp
  resume : ProgramId → Bool → RequestOp
  other : String → RequestOp

pub record ListItem : Type 0 where
  pub program_id : ProgramId
  pub name : String
  pub state : String
  pub submitted_at : ℤ

pub data Reply : Type 0 where
  submitted : ProgramId → String → Reply
  named : ProgramId → Reply
  resumed : ProgramId → ℕ → Reply
  items : List ListItem → Reply
  status_of : ProgramRow → Reply
  collected : GcReport → Reply
  healthy : ℤ → Reply
  bye : Reply

pub record Response : Type 0 where
  pub id : RequestId
  pub body : Result ErrorPayload Reply
