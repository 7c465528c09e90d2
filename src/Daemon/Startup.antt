-- ===== src/Daemon/Startup.antt =====
-- crates/vcli-daemon/src/startup.rs: what is reported of the programs that a restart interrupted.
use vcli.Prelude.{str_append, none, some, List, [], ◌∷◌, ℤ, decimal, ℕ, String}
use vcli.Core.State.{running, failed}
use vcli.Core.Event.{program_state_changed, program_failed, Event}
use vcli.Store.Rows.{RecoveredProgram}

abbrev pub changed_event : ℤ → RecoveredProgram → Event
changed_event now r = record {
  at = now;
  content = program_state_changed r.id running failed "daemon_restart";
}

-- `format!("body[{}]", r.body_cursor)`
abbrev pub body_place : ℕ → String
body_place cursor = str_append "body[" (str_append (decimal cursor) "]")

abbrev pub failed_event : ℤ → RecoveredProgram → Event
failed_event now r = record {
  at = now;
  content =
      program_failed r.id "daemon restarted during execution" (some (body_place r.body_cursor))
        none;
}

-- One `state_changed` and one `failed` for each recovered program, all at one time.
unfoldable pub emit_recovery_events : ℤ → List RecoveredProgram → List Event
emit_recovery_events now [] = []
emit_recovery_events now (r ∷ rs) =
    changed_event now r ∷ failed_event now r ∷ emit_recovery_events now rs
