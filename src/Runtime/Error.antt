-- ===== src/Runtime/Error.antt =====
-- crates/vcli-runtime/src/error.rs: the errors of a program and their wire codes.
use vcli.Prelude.{ℕ, String}

pub data ErrorCode : Type 0 where
  capture_failed input_failed perception_failed wait_for_timeout assert_failed program_timeout :
      ErrorCode
  novelty_timeout expression_unresolved daemon_restart internal : ErrorCode

unfoldable pub as_str : ErrorCode → String
as_str capture_failed = "capture_failed"
as_str input_failed = "input_failed"
as_str perception_failed = "perception_failed"
as_str wait_for_timeout = "wait_for_timeout"
as_str assert_failed = "assert_failed"
as_str program_timeout = "program_timeout"
as_str novelty_timeout = "novelty_timeout"
as_str expression_unresolved = "expression_unresolved"
as_str daemon_restart = "daemon_restart"
as_str internal = "internal"

pub data RuntimeError : Type 0 where
  capture input perception : String → RuntimeError
  wait_for_timeout : String → ℕ → RuntimeError
  assert_failed : String → RuntimeError
  program_timeout novelty_timeout : ℕ → RuntimeError
  expression_unresolved internal : String → RuntimeError

unfoldable pub code : RuntimeError → ErrorCode
code (capture _) = ErrorCode.capture_failed
code (input _) = ErrorCode.input_failed
code (perception _) = ErrorCode.perception_failed
code (RuntimeError.wait_for_timeout _ _) = ErrorCode.wait_for_timeout
code (RuntimeError.assert_failed _) = ErrorCode.assert_failed
code (RuntimeError.program_timeout _) = ErrorCode.program_timeout
code (RuntimeError.novelty_timeout _) = ErrorCode.novelty_timeout
code (RuntimeError.expression_unresolved _) = ErrorCode.expression_unresolved
code (RuntimeError.internal _) = ErrorCode.internal

-- `e.code().as_str()`, the `reason` of a failure.
unfoldable pub reason_of : RuntimeError → String
unfolding code as_str
reason_of e = as_str (code e)
