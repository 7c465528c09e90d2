-- ===== src/Store/Recovery.antt =====
-- The restart recovery of store.rs and the resume of resume.rs, row by row.
use vcli.Prelude.{
  ◌≡◌, refl, Bool, true, some, List, [], ◌∷◌, map, arith, if◌then◌else◌, keep, map_option, ok, ℤ,
}
use vcli.Core.State.{running}
use vcli.Core.Program.{ProgramId}
use vcli.Store.Rows.{
  Store, ProgramRow, has_id, update_where, find_row, is_running, recovered_of, restarted,
  recover_running_programs,
}
use vcli.Store.Updates.{touched, find_row-update_where, find_row-update_id}
use vcli.Store.Resume.{is_restart, resumed, resume_program}

update-none_running :
    (rows : List ProgramRow)
    → recovered_of rows ≡ []
    → update_where is_running restarted rows ≡ rows
unfolding recovered_of update_where
update-none_running [] e = refl
update-none_running (r ∷ rs) e = ground (arith, update-none_running rs)

pub programs-recover :
    (s : Store)
    → (recover_running_programs s).0.programs ≡ update_where is_running restarted s.programs
unfolding recover_running_programs
programs-recover s = ground (arith, update-none_running s.programs)

-- Recovery turns each running program into failed(daemon_restart) with its cursor kept, leaves
-- every other row as it was, and reports the running programs with their cursors in table order.
pub recover_rows :
    (s : Store) (j : ProgramId)
    → (find_row j (recover_running_programs s).0.programs
        ≡ map_option (touched is_running restarted) (find_row j s.programs))
      × ((recover_running_programs s).1
          ≡ map
              (λ r. record { id = r.id; body_cursor = r.body_cursor })
              (keep is_running s.programs))
unfolding recovered_of recover_running_programs
recover_rows s j = (
  rw (programs-recover s) (find_row-update_where is_running restarted j s.programs (λ r. refl)),
  reported s.programs,
)
  where
    reported :
        (rows : List ProgramRow)
        → recovered_of rows
          ≡ map (λ r. record { id = r.id; body_cursor = r.body_cursor }) (keep is_running rows)
    reported [] = refl
    reported (r ∷ rs) = ground (arith, reported rs)

-- `touched` as a lookup sees it, at a row that was running.
pub recovered_row :
    (s : Store) (k : ProgramId) (r : ProgramRow)
    → find_row k s.programs ≡ some r
    → r.state ≡ running
    → find_row k (recover_running_programs s).0.programs ≡ some (restarted r)
recovered_row s k r e h = rw ((recover_rows s k).0, e) (ground (arith, h))

-- The call on a row that waits for it.
resume_restarted :
    (s : Store) (k : ProgramId) (q : ProgramRow) (from_start : Bool) (now : ℤ)
    → find_row k s.programs ≡ some q
    → is_restart q ≡ true
    → let cursor = if from_start then 0 else q.body_cursor in
      (t : Store) × (resume_program s k from_start now ≡ ok (t, cursor))
      × (find_row k t.programs ≡ some (resumed cursor now q))
unfolding resume_program
resume_restarted s k q from_start now e h =
    let f = resumed (if from_start then 0 else q.body_cursor) now in
    (
      record s { programs = update_where (has_id k) f s.programs },
      rw (e, resume_program) (rw h refl),
      ground (arith, find_row-update_id k k f s.programs (λ r. refl)),
    )

-- A program that recovery interrupted can be resumed: the call returns the cursor that the row
-- had, or 0 if it is to start over, and the row is running there with no error.
pub resume-recover :
    (s : Store) (k : ProgramId) (r : ProgramRow) (from_start : Bool) (now : ℤ)
    → find_row k s.programs ≡ some r
    → r.state ≡ running
    → let cursor = if from_start then 0 else r.body_cursor in
      (t : Store) × (resume_program (recover_running_programs s).0 k from_start now
        ≡ ok (t, cursor))
      × (find_row k t.programs ≡ some (resumed cursor now (restarted r)))
resume-recover s k r from_start now e h =
    resume_restarted (recover_running_programs s).0 k (restarted r) from_start now
      (recovered_row s k r e h) refl
