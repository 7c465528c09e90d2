-- ===== src/Daemon/Service.antt =====
-- crates/vcli-daemon/src/handler.rs: the state of the handler, what it calls, and the payloads of its
-- errors.
use vcli.Prelude.{
  String, Bool, true, false, Option, some, List, [], ◌∷◌, ◌++◌, if◌then◌else◌, Result, ok, err, ℤ,
}
use vcli.Core.Predicate.{PredicateKind}
use vcli.Core.Program.{ProgramId, Program}
use vcli.Store.Rows.{Store, StoreError, unknown_program, not_resumable, constraint}
use vcli.Runtime.Program.{SchedulerCommand}
use vcli.Dsl.Path.{to_string}
use vcli.Dsl.Error.{DslErrorKind, DslError, hint_of}
use vcli.Dsl.Validation.{Validated, finish}
use vcli.Daemon.Assets.{Files, AssetMaterializeError}
use vcli.Daemon.Requests.{ErrorCode, invalid_program, internal, ErrorPayload, simple}

-- The handler's own state. `connected` says whether the scheduler still receives commands, `sent`
-- holds those that it was given, `armed` whether the shutdown has not been triggered.
pub record Daemon : Type 0 where
  pub store : Store
  pub connected : Bool
  pub sent : List SchedulerCommand
  pub armed : Bool

-- What the handler calls that stands outside: the clock, the new ids, the reads of JSON
-- (`serde_json::from_str` of a stored text, and
-- `parse_envelope_value` of what it holds), the canonical text of a program, the hash of a predicate, the texts of
-- errors, and the files.
pub record Host : Type 0 where
  pub now_ms : ℤ
  pub uptime_ms : ℤ
  pub fresh_id : ProgramId
  pub read_json : String → Result String (Unit {0})
  pub parse : String → Result DslError Program
  pub source_text : Program → Result String String
  pub hash : PredicateKind → Result DslErrorKind String
  pub describe : DslErrorKind → String
  pub describe_asset : AssetMaterializeError → String
  pub describe_store : StoreError → String
  pub files : Files

-- `DslError::to_payload`
abbrev pub dsl_payload : Host → DslError → ErrorPayload
dsl_payload host e = record {
  code = invalid_program;
  message = host.describe e.kind;
  path = some (to_string e.path);
  hint = hint_of e.kind;
}

-- `AssetMaterializeError::to_payload`, of the errors that are not the store's.
abbrev pub asset_payload : Host → AssetMaterializeError → ErrorPayload
asset_payload host e = simple invalid_program (host.describe_asset e)

abbrev pub store_error_payload : Host → StoreError → ErrorPayload
store_error_payload host not_resumable =
    simple ErrorCode.not_resumable (host.describe_store not_resumable)
store_error_payload host unknown_program = simple ErrorCode.unknown_program "not found"
store_error_payload host constraint = simple internal (host.describe_store constraint)

abbrev pub internal_payload : Host → StoreError → ErrorPayload
internal_payload host e = simple internal (host.describe_store e)

-- `validate_value`; `none` where the search for cycles runs out of fuel.
unfoldable pub validate_value : Host → String → Option (Result DslError Validated)
unfolding finish
validate_value host text = elim (host.parse text) [
  | err e ↦ some (err e)
  | ok p ↦ finish host.hash p
]

-- `cmd_tx.send`
unfoldable pub send_command : SchedulerCommand → Daemon → Bool × Daemon
send_command c d = if d.connected then (true, record d { sent = d.sent ++ c ∷ [] }) else (false, d)

-- A part of a handler: the store that it leaves and its result, or the payload of its error.
abbrev pub Attempt {ℓ} : Type ℓ → Type ℓ
Attempt A = Result ErrorPayload A × Store

abbrev pub attempt_then {ℓ κ} :
    {A : Type ℓ} {B : Type κ} → Attempt A → (A → Store → Attempt B) → Attempt B
attempt_then (ok a, s) next = next a s
attempt_then (err e, s) next = (err e, s)
