-- ===== src/Examples/Requests.antt =====
-- A submission with an image, and a resume whose text is no longer accepted.
use vcli.Prelude.{
  String, ◌≡◌, refl, true, false, none, some, List, [], ◌∷◌, ◌++◌, map, arith, str_eq, ◌==◌,
  if◌then◌else◌, length, keep, All, lookup, insert, ok, err, pos, decimal,
}
use vcli.Core.State.{failed, waiting}
use vcli.Core.Predicate.{absolute, template}
use vcli.Core.Program.{Program}
use vcli.Store.Rows.{
  Store, ProgramRow, not_resumable, find_row, get_program, update_where, list_programs,
}
use vcli.Store.Resume.{resume_program, resumed}
use vcli.Store.Assets.{put_asset}
use vcli.Store.Gc.{has_blob, is_known}
use vcli.Store.Gc.Integrity.{HasIntegrity}
use vcli.Runtime.Program.{submit_validated}
use vcli.Dsl.Path.{root}
use vcli.Dsl.Error.{json_parse}
use vcli.Dsl.Predicates.{
  check_predicate_references, check_each, validate_predicate_shape, round, visit, visit_all,
  validate_predicate_graph,
}
use vcli.Dsl.Steps.{validate_step, validate_steps, validate_trigger}
use vcli.Dsl.Watches.{validate_watches}
use vcli.Dsl.Validation.{Validated, compute_predicate_hashes, checks, finish}
use vcli.Daemon.Assets.{
  Files, MaterializedAssets, add_asset, materialize_image_ref, materialize_predicate,
  materialize_all, materialize_watches, materialize_template_assets,
}
use vcli.Daemon.Assets.Stocked.{IsGathered}
use vcli.Daemon.Assets.Gathering.{materialize-IsGathered}
use vcli.Daemon.Requests.{internal, daemon_busy, simple, submitted}
use vcli.Daemon.Reload.{Reloaded, reload_waiting_programs}
use vcli.Daemon.Reload.Waiting.{IsSublist, Reloads, command, row_id, identity, reload-sends}
use vcli.Core.Event.{program_completed}
use vcli.Store.Rows.{take_events}
use vcli.Store.Assets.{has_link}
use vcli.Daemon.Streams.{StreamOp, event_frame, handle_stream}
use vcli.Daemon.Streams.History.{logs-first}
use vcli.Daemon.Service.{Daemon, Host, validate_value, dsl_payload, store_error_payload}
use vcli.Daemon.Handler.{from_row, new_row, handle_submit, handle_resume}
use vcli.Store.Assets.Links.{KeepsLinks}
use vcli.Daemon.Handler.Submission.{row_of, handle_submit-stores}
use vcli.Daemon.Handler.Resumption.{RunsIn, resume-strands}
use vcli.Examples.Data.{plain, row}

-- The digest of bytes is their first byte.
abbrev files : Files
files = record {
  of_bytes = λ bytes. elim bytes [ [] ↦ "00" | b ∷ rest ↦ decimal b ];
  contents = λ hash. [];
  read = λ path. if str_eq path "/pictures/a.png" then ok (9 ∷ 9 ∷ []) else err "not found";
  extension = λ path. some "png";
}

abbrev pictured : String → Program
pictured image = record plain {
  predicates =
      (
        "logo",
        template image 0 (absolute (record { x = pos 0; y = pos 0; w = pos 1; h = pos 1 })) 0,
      )
      ∷ [];
}

abbrev host : Host
host = record {
  now_ms = pos 40;
  uptime_ms = pos 4;
  fresh_id = 8;
  read_json = λ text. ok tt;
  parse = λ text.
      if str_eq text "p"
      then ok (pictured "a.png")
      else err (record { kind = json_parse "eof"; path = root });
  source_text = λ p. ok "text";
  hash = λ p. ok "h";
  describe = λ k. "invalid";
  describe_asset = λ e. "no asset";
  describe_store = λ e. "store";
  files = files;
}

abbrev blank : Store
blank = record {
  programs = [];
  events = [];
  last_event_id = 0;
  program_assets = [];
  assets = [];
  blobs = [];
}

abbrev ready : Daemon
ready = record { store = blank; connected = true; sent = []; armed = true }

abbrev accepted : Validated
accepted = record { program = pictured "a.png"; hashes = ("logo", "h") ∷ [] }

abbrev with_image : Store
with_image = record blank {
  assets = record { hash = "9"; byte_len = 2; extension = some "png"; added_at = pos 40 } ∷ [];
  blobs = ("9", some "png") ∷ [];
}

abbrev gathered : MaterializedAssets
gathered = record { bytes = ("9", 9 ∷ 9 ∷ []) ∷ []; hashes = "9" ∷ [] }

blank-HasIntegrity : HasIntegrity blank
blank-HasIntegrity = record { events = tt; links = tt; files = tt }

submission-valid : validate_value host "p" ≡ some (ok accepted)
unfolding validate_value finish checks validate_predicate_graph validate_predicate_shape check_each
    check_predicate_references visit_all visit round validate_trigger validate_watches
    validate_steps validate_step compute_predicate_hashes lookup insert
submission-valid = refl

submission-made :
    materialize_template_assets files (some "/pictures") (pos 40) blank (pictured "a.png")
    ≡ (ok (pictured "sha256:9"), (with_image, gathered))
unfolding materialize_template_assets materialize_all materialize_watches materialize_predicate
    materialize_image_ref put_asset add_asset has_blob is_known lookup insert decimal
submission-made = refl

free : find_row 8 blank.programs ≡ none
unfolding find_row
free = refl

handle_submit-stores_example :
    (w : Store) × (handle_submit host "p" (some "/pictures") ready
      ≡ some (
          if true
          then (
            ok (submitted 8 "typist"),
            record ready {
              store = w;
              sent = [] ++ submit_validated 8 (pictured "sha256:9") gathered.bytes ∷ [];
            },
          )
          else (
            err (simple daemon_busy "scheduler command queue full"),
            record ready { store = w },
          )))
    × (w.programs ≡ [] ++ row_of (new_row host 8 (pictured "sha256:9") "text") ∷ [])
    × All (λ h. has_link w.program_assets 8 h ≡ true) ("9" ∷ [])
    × KeepsLinks with_image w
    × HasIntegrity w
handle_submit-stores_example =
    handle_submit-stores host "p" (some "/pictures") ready accepted (pictured "sha256:9") with_image
      gathered "text" blank-HasIntegrity tt submission-valid free submission-made refl

materialize-IsGathered_example :
    IsGathered blank.programs
      (materialize_template_assets files (some "/pictures") (pos 40) blank (pictured "a.png")).1
materialize-IsGathered_example =
    materialize-IsGathered files (some "/pictures") (pos 40) blank (pictured "a.png")
      blank-HasIntegrity tt

abbrev interrupted : ProgramRow
interrupted = record (row 7 failed) { last_error_code = some "daemon_restart" }

abbrev after_restart : Daemon
after_restart = record ready { store = record blank { programs = interrupted ∷ [] } }

abbrev stranded : Store
stranded = record blank { programs = resumed interrupted.body_cursor (pos 40) interrupted ∷ [] }

row-changed :
    resume_program after_restart.store 7 false (pos 40) ≡ ok (stranded, interrupted.body_cursor)
unfolding resume_program find_row update_where
row-changed = refl

text-rejected :
    from_row host stranded (get_program stranded 7)
    ≡ some (err (dsl_payload host (record { kind = json_parse "eof"; path = root })), stranded)
unfolding get_program find_row validate_value
text-rejected = refl

-- A stored text that is no JSON.
no_json :
    from_row (record host { read_json = λ text. err "eof" }) stranded (get_program stranded 7)
    ≡ some (err (simple internal "stored program json: eof"), stranded)
unfolding get_program find_row
no_json = refl

resume-strands_example :
    (handle_resume host 7 false after_restart
      ≡ some (
        err (dsl_payload host (record { kind = json_parse "eof"; path = root })),
        record after_restart { store = stranded },
      ))
    × RunsIn 7 stranded.programs
    × (handle_resume host 7 true (record after_restart { store = stranded })
        ≡ some (
          err (store_error_payload host not_resumable),
          record after_restart { store = stranded },
        ))
resume-strands_example =
    resume-strands host after_restart 7 false true stranded stranded interrupted.body_cursor
      (dsl_payload host (record { kind = json_parse "eof"; path = root })) row-changed text-rejected

abbrev delayed : ProgramRow
delayed = record (row 7 waiting) { source_json = "p" }

abbrev with_delayed : Daemon
with_delayed = record ready { store = record blank { programs = delayed ∷ [] } }

with_delayed-HasIntegrity : HasIntegrity with_delayed.store
with_delayed-HasIntegrity = record { events = tt; links = tt; files = tt }

reload-sends_example :
    (found : List Reloaded) × (t : Store) × (reload_waiting_programs host with_delayed
      ≡ some (length found, record with_delayed { store = t; sent = [] ++ map command found }))
    × Reloads host (list_programs with_delayed.store (some waiting)) with_delayed.store found t
    × IsSublist (map identity found) (map row_id (list_programs with_delayed.store (some waiting)))
    × (t.programs ≡ delayed ∷ [])
    × HasIntegrity t
reload-sends_example = reload-sends host with_delayed with_delayed-HasIntegrity tt refl

abbrev noted : Store
noted = record blank {
  events =
      record {
        id = 1;
        program_id = 7;
        event = record { at = pos 3; content = program_completed 7 none };
      }
      ∷ record {
        id = 2;
        program_id = 8;
        event = record { at = pos 4; content = program_completed 8 none };
      }
      ∷ [];
}

logs-first_example :
    handle_stream 5 (StreamOp.logs 8 false) noted (pos 9) 3 []
    ≡ map
        (λ row. event_frame 5 row.event)
        (keep (λ row. 8 == row.program_id) (take_events 10000 noted.events))
logs-first_example =
    logs-first 5 8 noted (pos 9) 3 [] (omega arith, (omega arith, tt)) (omega arith)
