-- ===== src/Daemon/Handler.antt =====
-- crates/vcli-daemon/src/handler.rs: what a request does to the store and to the command channel.
use vcli.Prelude.{
  ℕ, ◌*◌, String, str_append, Bool, true, false, Option, none, some, List, [], ◌∷◌, map, Result, ok,
  err, ℤ, pos, ◌-ℤ◌, not,
}
use vcli.Core.State.{ProgramState, pending, as_str, from_str}
use vcli.Core.State
use vcli.Core.Program.{ProgramId, Program}
use vcli.Store.Rows.{
  Store, ProgramRow, NewProgram, StoreError, unknown_program, not_resumable, constraint,
  insert_program, get_program, list_programs,
}
use vcli.Store.Resume.{resume_program}
use vcli.Store.Assets.{link_program_asset}
use vcli.Store.Gc.{gc_all, retention_days}
use vcli.Runtime.Program.{SchedulerCommand}
use vcli.Runtime.Program.{submit_validated, resume_running}
use vcli.Dsl.Error.{DslError}
use vcli.Dsl.Validation.{Validated}
use vcli.Daemon.Assets.{MaterializedAssets, Outcome, materialize_template_assets}
use vcli.Daemon.Requests.{
  ErrorCode, daemon_busy, internal, ErrorPayload, simple, RequestId, RequestOp, ListItem, Reply,
  submitted, named, resumed, items, status_of, collected, healthy, bye, Response,
}
use vcli.Daemon.Service.{
  Daemon, Host, dsl_payload, asset_payload, store_error_payload, internal_payload, validate_value,
  send_command, Attempt, attempt_then,
}
pub mod Submission
pub mod Resumption

module _ (host : Host) where
  abbrev pub of_store : Store → Result StoreError Store → Attempt (Unit {0})
  of_store s (ok t) = (ok tt, t)
  of_store s (err e) = (err (internal_payload host e), s)

  abbrev pub of_outcome : Outcome Program → Attempt (Program × MaterializedAssets)
  of_outcome (ok p, (s, out)) = (ok (p, out), s)
  of_outcome (err e, (s, out)) = (err (asset_payload host e), s)

  -- `for hash in &materialized.hashes`
  unfoldable pub link_all : ProgramId → List String → Store → Attempt (Unit {0})
  link_all pid [] s = (ok tt, s)
  link_all pid (h ∷ hs) s =
      attempt_then (of_store s (link_program_asset s pid h)) (λ u t. link_all pid hs t)

  abbrev pub new_row : ProgramId → Program → String → NewProgram
  new_row pid program text = record {
    id = pid;
    name = program.name;
    source_json = text;
    state = pending;
    submitted_at = host.now_ms;
    labels_json = "{}";
  }

  abbrev pub text_of : Result String String → Store → Attempt String
  text_of (ok t) s = (ok t, s)
  text_of (err m) s = (err (simple internal m), s)

  -- The work on the store that a submission does.
  unfoldable pub store_submission :
      ProgramId → Program → Option String → Store → Attempt (Program × MaterializedAssets)
  unfolding link_all
  store_submission pid program base_dir s =
      attempt_then
        (of_outcome (materialize_template_assets host.files base_dir host.now_ms s program))
        (λ (q, out) t. attempt_then (text_of (host.source_text q) t) (λ text u.
          attempt_then (of_store u (insert_program u (new_row pid q text)))
            (λ x v. attempt_then (link_all pid out.hashes v) (λ y w. (ok (q, out), w)))))

  abbrev pub or_fresh : Option ProgramId → ProgramId
  or_fresh none = host.fresh_id
  or_fresh (some k) = k

  abbrev pub sent_or_busy : String → Reply → Bool × Daemon → Result ErrorPayload Reply × Daemon
  sent_or_busy message reply (true, d) = (ok reply, d)
  sent_or_busy message reply (false, d) = (err (simple daemon_busy message), d)

  abbrev pub queue_submission :
      ProgramId
      → String
      → Daemon
      → Attempt (Program × MaterializedAssets)
      → Result ErrorPayload Reply × Daemon
  queue_submission pid name d (err e, s) = (err e, record d { store = s })
  queue_submission pid name d (ok (q, out), s) =
      sent_or_busy "scheduler command queue full" (submitted pid name)
        (send_command (submit_validated pid q out.bytes) (record d { store = s }))

  unfoldable pub handle_submit :
      String → Option String → Daemon → Option (Result ErrorPayload Reply × Daemon)
  unfolding validate_value store_submission send_command
  handle_submit text base_dir d = elim (validate_value host text) [
    | none ↦ none
    | some (err e) ↦ some (err (dsl_payload host e), d)
    | some (ok v) ↦
        let pid = or_fresh v.program.id in
        some
          (queue_submission pid v.program.name d (store_submission pid v.program base_dir d.store))
  ]

  -- The work on the store that a resume does; the row changes first.
  abbrev pub revalidated :
      Store → Option (Result DslError Validated) → Option (Attempt (Program × MaterializedAssets))
  revalidated s none = none
  revalidated s (some (err e)) = some (err (dsl_payload host e), s)
  revalidated s (some (ok v)) =
      some (of_outcome (materialize_template_assets host.files none host.now_ms s v.program))

  -- A stored text that is no JSON is the daemon's own error.
  abbrev pub stored :
      Store
      → ProgramRow
      → Result String (Unit {0})
      → Option (Attempt (Program × MaterializedAssets))
  stored s r (err e) = some (err (simple internal (str_append "stored program json: " e)), s)
  stored s r (ok u) = revalidated s (validate_value host r.source_json)

  abbrev pub from_row :
      Store → Result StoreError ProgramRow → Option (Attempt (Program × MaterializedAssets))
  from_row s (err e) = some (err (store_error_payload host e), s)
  from_row s (ok r) = stored s r (host.read_json r.source_json)

  abbrev pub queue_resume :
      ProgramId
      → ℕ
      → Daemon
      → Option (Attempt (Program × MaterializedAssets))
      → Option (Result ErrorPayload Reply × Daemon)
  queue_resume pid step d none = none
  queue_resume pid step d (some (err e, s)) = some (err e, record d { store = s })
  queue_resume pid step d (some (ok (q, out), s)) = some (
    ok (resumed pid step),
    (send_command (resume_running pid step q out.bytes) (record d { store = s })).1,
  )

  abbrev pub after_resume :
      ProgramId
      → Daemon
      → Result StoreError (Store × ℕ)
      → Option (Result ErrorPayload Reply × Daemon)
  after_resume pid d (err e) = some (err (store_error_payload host e), d)
  after_resume pid d (ok (s, step)) = queue_resume pid step d (from_row s (get_program s pid))

  unfoldable pub handle_resume :
      ProgramId → Bool → Daemon → Option (Result ErrorPayload Reply × Daemon)
  unfolding validate_value send_command
  handle_resume pid from_start d =
      after_resume pid d (resume_program d.store pid from_start host.now_ms)

  unfoldable pub handle_cancel : ProgramId → Daemon → Result ErrorPayload Reply × Daemon
  unfolding send_command
  handle_cancel pid d =
      sent_or_busy "cmd queue full" (named pid)
        (send_command (SchedulerCommand.cancel pid "user") d)

  unfoldable pub handle_start : ProgramId → Daemon → Result ErrorPayload Reply × Daemon
  unfolding send_command
  handle_start pid d =
      sent_or_busy "cmd queue full" (named pid) (send_command (SchedulerCommand.start pid) d)

  abbrev pub item_of : ProgramRow → ListItem
  item_of r = record {
    program_id = r.id;
    name = r.name;
    state = State.as_str r.state;
    submitted_at = r.submitted_at;
  }

  -- A state that is none of the eight is no filter.
  abbrev pub filter_of : Option String → Option ProgramState
  filter_of none = none
  filter_of (some s) = State.from_str s

  unfoldable pub handle_list : Option String → Daemon → Result ErrorPayload Reply × Daemon
  handle_list state d = (ok (items (map item_of (list_programs d.store (filter_of state)))), d)

  abbrev pub status_reply : Result StoreError ProgramRow → Result ErrorPayload Reply
  status_reply (ok r) = ok (status_of r)
  status_reply (err unknown_program) = err (simple ErrorCode.unknown_program "not found")
  status_reply (err not_resumable) = err (internal_payload host not_resumable)
  status_reply (err constraint) = err (internal_payload host constraint)

  unfoldable pub handle_status : ProgramId → Daemon → Result ErrorPayload Reply × Daemon
  handle_status pid d = (status_reply (get_program d.store pid), d)

  -- `now - i64::from(RETENTION_DAYS) * 24 * 60 * 60 * 1000`
  abbrev pub gc_cutoff : ℤ
  gc_cutoff = host.now_ms -ℤ pos (retention_days * 24 * 60 * 60 * 1000)

  unfoldable pub handle_gc : Daemon → Result ErrorPayload Reply × Daemon
  handle_gc d =
      let (s, report) = gc_all d.store gc_cutoff in (ok (collected report), record d { store = s })

  -- `trigger_shutdown`, and the command.
  unfoldable pub handle_shutdown : Daemon → Result ErrorPayload Reply × Daemon
  unfolding send_command
  handle_shutdown d =
      (ok bye, (send_command SchedulerCommand.shutdown (record d { armed = false })).1)

  abbrev pub respond :
      RequestId → Option (Result ErrorPayload Reply × Daemon) → Option (Response × Daemon)
  respond id none = none
  respond id (some (body, d)) = some (record { id = id; body = body }, d)

  unfoldable pub handle : RequestId → RequestOp → Daemon → Option (Response × Daemon)
  unfolding handle_submit handle_resume handle_cancel handle_start handle_list handle_status
      handle_gc handle_shutdown
  handle id RequestOp.health d = respond id (some (ok (healthy host.uptime_ms), d))
  handle id RequestOp.shutdown d = respond id (some (handle_shutdown d))
  handle id (RequestOp.submit text base_dir) d = respond id (handle_submit text base_dir d)
  handle id (RequestOp.list state) d = respond id (some (handle_list state d))
  handle id (RequestOp.status pid) d = respond id (some (handle_status pid d))
  handle id (RequestOp.cancel pid) d = respond id (some (handle_cancel pid d))
  handle id (RequestOp.start pid) d = respond id (some (handle_start pid d))
  handle id (RequestOp.resume pid from_start) d = respond id (handle_resume pid from_start d)
  handle id RequestOp.gc d = respond id (some (handle_gc d))
  handle id (RequestOp.other name) d =
      respond id (some (err (simple internal (str_append "op not yet wired: " name)), d))
