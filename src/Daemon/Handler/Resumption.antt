-- ===== src/Daemon/Handler/Resumption.antt =====
-- A resume of crates/vcli-daemon/src/handler.rs that fails after the row has changed.
use vcli.Prelude.{
  String, ℕ, ◌≡◌, refl, sym, ap, subst, ◌∙◌, inl, inr, Bool, Option, none, some, List, arith,
  if◌then◌else◌, ==_refl, Bool-cases, Result, ok, err, ℤ,
}
use vcli.Core.State.{running}
use vcli.Core.Program.{ProgramId, Program}
use vcli.Store.Rows.{
  Store, ProgramRow, StoreError, unknown_program, not_resumable, find_row, get_program,
  update_where, has_id,
}
use vcli.Store.Resume.{resume_program, is_restart, resumed}
use vcli.Store.Updates.{find_row-update_id}
use vcli.Dsl.Error.{DslError}
use vcli.Dsl.Validation.{Validated}
use vcli.Daemon.Assets.{Outcome, MaterializedAssets, materialize_template_assets}
use vcli.Daemon.Assets.Gathering.{materialize-programs}
use vcli.Daemon.Requests.{ErrorPayload}
use vcli.Daemon.Service.{Daemon, Host, validate_value, Attempt, store_error_payload}
use vcli.Daemon.Handler.{of_outcome, revalidated, stored, from_row, handle_resume}

abbrev pub RunsIn : ProgramId → List ProgramRow → Type 0
RunsIn k rows = (r : ProgramRow) × (find_row k rows ≡ some r) × (r.state ≡ running)

resume-RunsIn :
    (s t : Store) (k : ProgramId) (from_start : Bool) (now : ℤ) (step : ℕ)
    → resume_program s k from_start now ≡ ok (t, step)
    → RunsIn k t.programs
unfolding resume_program
resume-RunsIn s t k from_start now step e = by_row (find_row k s.programs) refl e
  where
    attempt : ProgramRow → Result StoreError (Store × ℕ)
    attempt r =
        let cursor = if from_start then 0 else r.body_cursor in
        if is_restart r
        then ok (
          record s { programs = update_where (has_id k) (resumed cursor now) s.programs },
          cursor,
        )
        else err not_resumable

    by_test :
        (r : ProgramRow)
        → find_row k s.programs ≡ some r
        → attempt r ≡ ok (t, step)
        → RunsIn k t.programs
    by_test r f e = elim (Bool-cases (is_restart r)) [
      | inr other ↦ absurd (ground (arith, other, e))
      | inl restart ↦
          let cursor = if from_start then 0 else r.body_cursor in
          let rows = update_where (has_id k) (resumed cursor now) s.programs in
          let exact : t ≡ record s { programs = rows } = ground (arith, restart, e) in
          (
            resumed cursor now r,
            rw exact (
                find_row-update_id k k (resumed cursor now) s.programs (λ q. refl)
                ∙ rw (==_refl k, f) refl),
            refl,
          )
    ]

    by_row :
        (row : Option ProgramRow)
        → find_row k s.programs ≡ row
        → (elim row [ none ↦ err unknown_program | some r ↦ attempt r ]) ≡ ok (t, step)
        → RunsIn k t.programs
    by_row none f e = cc e
    by_row (some r) f e = by_test r f e

refused :
    (t : Store) (k : ProgramId) (again : Bool) (now : ℤ)
    → RunsIn k t.programs
    → resume_program t k again now ≡ err not_resumable
unfolding resume_program
refused t k again now (r, found, live) = rw (found, resume_program) (ground (arith, live))

abbrev or_store : Store → Option (Attempt (Program × MaterializedAssets)) → Store
or_store s none = s
or_store s (some x) = x.1

abbrev or_attempt :
    Attempt (Program × MaterializedAssets)
    → Option (Attempt (Program × MaterializedAssets))
    → Attempt (Program × MaterializedAssets)
or_attempt x none = x
or_attempt x (some y) = y

module _ (host : Host) where
  outcome-programs :
      (s : Store) (o : Outcome Program) (e : ErrorPayload) (t : Store)
      → of_outcome host o ≡ (err e, t)
      → o.1.0.programs ≡ s.programs
      → t.programs ≡ s.programs
  outcome-programs s (ok q, (u, out)) e t h same = absurd (cc (ap (λ x. x.0) h))
  outcome-programs s (err x, (u, out)) e t h same =
      subst (λ v. v.programs ≡ s.programs) (ap (λ x. x.1) h) same

  left_in :
      (s : Store) {x y : Attempt (Program × MaterializedAssets)}
      → ◌≡◌ {A = Option (Attempt (Program × MaterializedAssets))} (some x) (some y)
      → x.1 ≡ y.1
  left_in s h = ap (λ o. or_store s o) h

  taken :
      (x : Attempt (Program × MaterializedAssets)) {y : Attempt (Program × MaterializedAssets)}
      → ◌≡◌ {A = Option (Attempt (Program × MaterializedAssets))} (some x) (some y)
      → x ≡ y
  taken x h = ap (λ o. or_attempt x o) h

  from_row-programs :
      (s t : Store) (r : Result StoreError ProgramRow) (e : ErrorPayload)
      → from_row host s r ≡ some (err e, t)
      → t.programs ≡ s.programs
  from_row-programs s t (err x) e h = ap (λ u. u.programs) (sym (left_in s h))
  from_row-programs s t (ok r) e h = by_text (host.read_json r.source_json) h
    where
      by_value :
          (v : Option (Result DslError Validated))
          → revalidated host s v ≡ some (err e, t)
          → t.programs ≡ s.programs
      by_value none h = cc h
      by_value (some (err x)) h = ap (λ u. u.programs) (sym (left_in s h))
      by_value (some (ok v)) h =
          outcome-programs s (materialize_template_assets host.files none host.now_ms s v.program) e
            t (taken _ h) (materialize-programs host.files none host.now_ms s v.program)

      by_text :
          (x : Result String (Unit {0}))
          → stored host s r x ≡ some (err e, t)
          → t.programs ≡ s.programs
      by_text (err m) h = ap (λ u. u.programs) (sym (left_in s h))
      by_text (ok u) h = by_value (validate_value host r.source_json) h

  -- A resume whose program cannot be prepared (its text is not accepted, or an image is missing) is
  -- answered with the error, but the row has become `running` and stays so: no command was sent,
  -- and the next resume is refused as not resumable.
  pub resume-strands :
      (d : Daemon) (pid : ProgramId) (from_start again : Bool) (s t : Store) (step : ℕ)
      (e : ErrorPayload)
      → resume_program d.store pid from_start host.now_ms ≡ ok (s, step)
      → from_row host s (get_program s pid) ≡ some (err e, t)
      → (handle_resume host pid from_start d ≡ some (err e, record d { store = t }))
        × RunsIn pid t.programs
        × (handle_resume host pid again (record d { store = t })
            ≡ some (err (store_error_payload host not_resumable), record d { store = t }))
  unfolding handle_resume
  resume-strands d pid from_start again s t step e changed fails =
      let runs : RunsIn pid t.programs =
        subst (λ rows. RunsIn pid rows) (sym (from_row-programs s t (get_program s pid) e fails))
          (resume-RunsIn d.store s pid from_start host.now_ms step changed) in
      (rw (changed, fails) refl, runs, rw (refused t pid again host.now_ms runs) refl)
