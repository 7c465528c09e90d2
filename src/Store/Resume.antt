-- ===== src/Store/Resume.antt =====
-- crates/vcli-store/src/resume.rs: from failed(daemon_restart) back to running.
use vcli.Prelude.{ℕ, Bool, false, ◌&&◌, none, some, ℤ, Result, ok, err, str_eq, if◌then◌else◌}
use vcli.Core.State.{running, failed, state_eq}
use vcli.Core.Program.{ProgramId}
use vcli.Store.Rows.{
  Store, ProgramRow, StoreError, unknown_program, not_resumable, find_row, update_where, coalesce,
  has_id,
}

abbrev pub is_restart : ProgramRow → Bool
is_restart r =
    state_eq r.state failed
    && elim r.last_error_code [ none ↦ false | some c ↦ str_eq c "daemon_restart" ]

-- The two UPDATEs of the transaction.
abbrev pub resumed : ℕ → ℤ → ProgramRow → ProgramRow
resumed cursor now r = record r {
  state = running;
  last_error_code = none;
  last_error_msg = none;
  body_cursor = cursor;
  finished_at = none;
  started_at = coalesce r.started_at (some now);
}

-- The result is `ResumeOutcome { from_step }`, beside the store.
unfoldable pub resume_program : Store → ProgramId → Bool → ℤ → Result StoreError (Store × ℕ)
resume_program s k from_start now = elim (find_row k s.programs) [
  | none ↦ err unknown_program
  | some r ↦
      let cursor = if from_start then 0 else r.body_cursor in
      if is_restart r
      then ok
          (record s { programs = update_where (has_id k) (resumed cursor now) s.programs }, cursor)
      else err not_resumable
]
