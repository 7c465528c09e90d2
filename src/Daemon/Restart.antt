-- ===== src/Daemon/Restart.antt =====
-- A restart as the daemon runs it: the store recovers, the events of the recovery go through the
-- pump, and a client asks to resume.
use vcli.Prelude.{
  String, ◌≡◌, refl, inl, inr, Bool, true, Option, some, List, [], ◌∷◌, arith, eq_iff, ◌==◌,
  Bool-cases, err, ℤ,
}
use vcli.Core.State.{running, failed}
use vcli.Core.Program.{ProgramId}
use vcli.Store.Rows.{
  Store, ProgramRow, not_resumable, RecoveredProgram, find_row, set_state, error_set, is_running,
  recovered_of, restarted, recover_running_programs,
}
use vcli.Store.Resume.{resume_program}
use vcli.Store.Recovery.{recovered_row}
use vcli.Daemon.Persist.{spawn_event_pump, pump_event}
use vcli.Daemon.Startup.{changed_event, failed_event, body_place, emit_recovery_events}
use vcli.Daemon.Rows.{if_about, find_row-pump_event}

-- The store after the start of the daemon: `Store::open`, then the pump of the recovery's events.
unfoldable pub restart : Store → ℤ → Store
restart s now =
    let (t, recovered) = recover_running_programs s in
    spawn_event_pump t (emit_recovery_events now recovered)

abbrev not_code : String
not_code = "daemon restarted during execution"

-- The code that the pump leaves behind.
abbrev IsOverwritten : Option ProgramRow → Type 0
IsOverwritten x = (q : ProgramRow) × (x ≡ some q) × (q.last_error_code ≡ some not_code)

abbrev HasRow : Option ProgramRow → Type 0
HasRow x = (q : ProgramRow) × (x ≡ some q)

abbrev found : ProgramRow → RecoveredProgram
found q = record { id = q.id; body_cursor = q.body_cursor }

module _ (now : ℤ) where
  abbrev marked : RecoveredProgram → ProgramRow → ProgramRow
  marked r q =
      error_set not_code (body_place r.body_cursor) (set_state failed now (set_state failed now q))

  abbrev after_pair : Store → RecoveredProgram → Store
  after_pair s r = pump_event (pump_event s (changed_event now r)) (failed_event now r)

  -- The two events of one recovered program.
  pair_row :
      (s : Store) (r : RecoveredProgram) (k : ProgramId)
      → find_row k (after_pair s r).programs
        ≡ if_about (some r.id) k (marked r) (find_row k s.programs)
  pair_row s r k = ground (
    arith,
    find_row-pump_event (pump_event s (changed_event now r)) k (failed_event now r),
    find_row-pump_event s k (changed_event now r),
  )

  -- A row survives, and the code of an overwritten row stays overwritten.
  pair-HasRow :
      (s : Store) (r : RecoveredProgram) (k : ProgramId)
      → HasRow (find_row k s.programs)
      → HasRow (find_row k (after_pair s r).programs)
  pair-HasRow s r k (q, e) = elim (Bool-cases (r.id == k)) [
    | inl same ↦ (marked r q, ground (arith, pair_row s r k))
    | inr other ↦ (q, ground (arith, pair_row s r k))
  ]

  pair_overwrites :
      (s : Store) (r : RecoveredProgram) (k : ProgramId)
      → HasRow (find_row k s.programs)
      → (r.id == k) ≡ true
      → IsOverwritten (find_row k (after_pair s r).programs)
  pair_overwrites s r k (q, e) same = (marked r q, ground (arith, pair_row s r k), refl)

  pair-IsOverwritten :
      (s : Store) (r : RecoveredProgram) (k : ProgramId)
      → IsOverwritten (find_row k s.programs)
      → IsOverwritten (find_row k (after_pair s r).programs)
  pair-IsOverwritten s r k (q, e, c) = elim (Bool-cases (r.id == k)) [
    | inl same ↦ pair_overwrites s r k (q, e) same
    | inr other ↦ (q, ground (arith, pair_row s r k), c)
  ]

  pump-IsOverwritten :
      (s : Store) (rs : List RecoveredProgram) (k : ProgramId)
      → IsOverwritten (find_row k s.programs)
      → IsOverwritten (find_row k (spawn_event_pump s (emit_recovery_events now rs)).programs)
  unfolding spawn_event_pump emit_recovery_events
  pump-IsOverwritten s [] k h = h
  pump-IsOverwritten s (r ∷ rs) k h =
      pump-IsOverwritten (after_pair s r) rs k (pair-IsOverwritten s r k h)

  -- Every program that was running is in the list.
  pump_recovered :
      (s : Store) (rows : List ProgramRow) (k : ProgramId) (r : ProgramRow)
      → HasRow (find_row k s.programs)
      → find_row k rows ≡ some r
      → r.state ≡ running
      → IsOverwritten
          (find_row k (spawn_event_pump s (emit_recovery_events now (recovered_of rows))).programs)
  unfolding recovered_of find_row spawn_event_pump emit_recovery_events
  pump_recovered s [] k r h e run = cc
  pump_recovered s (q ∷ qs) k r h e run = elim (Bool-cases (q.id == k)) [
    | inl same ↦
        let live : is_running q ≡ true = ground arith in
        rw live (
          pump-IsOverwritten (after_pair s (found q)) (recovered_of qs) k
            (pair_overwrites s (found q) k h same))
    | inr other ↦
        let rest : find_row k qs ≡ some r = ground arith in
        elim (Bool-cases (is_running q)) [
          | inl live ↦ rw live (
              pump_recovered (after_pair s (found q)) qs k r (pair-HasRow s (found q) k h) rest run)
          | inr idle ↦ rw idle (pump_recovered s qs k r h rest run)
        ]
  ]

refused :
    (s : Store) (k : ProgramId) (from_start : Bool) (now : ℤ)
    → IsOverwritten (find_row k s.programs)
    → resume_program s k from_start now ≡ err not_resumable
unfolding resume_program
refused s k from_start now (q, e, c) =
    rw (e, resume_program) (ground (arith, eq_iff not_code "daemon_restart"))

-- No program that a restart interrupts can be resumed once the pump has run: for every store and
-- every program that was running, the resume is refused as not resumable, since the reason of the
-- recovery's `program.failed` event overwrites the code that the resume asks for.
pub resume-restart :
    (s : Store) (k : ProgramId) (r : ProgramRow) (from_start : Bool) (now later : ℤ)
    → find_row k s.programs ≡ some r
    → r.state ≡ running
    → resume_program (restart s now) k from_start later ≡ err not_resumable
unfolding restart recover_running_programs
resume-restart s k r from_start now later e run = refused (restart s now) k from_start later (
    pump_recovered now (recover_running_programs s).0 s.programs k r
      (restarted r, recovered_row s k r e run) e run)
