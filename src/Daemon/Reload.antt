-- ===== src/Daemon/Reload.antt =====
-- crates/vcli-daemon/src/startup.rs: the programs that wait go to the scheduler again after a
-- restart. `none` stands where the search for cycles runs out of fuel.
use vcli.Prelude.{
  ℕ, suc, String, Option, none, some, List, [], ◌∷◌, if◌then◌else◌, Dict, Result, ok, err,
}
use vcli.Core.State.{waiting}
use vcli.Core.Program.{ProgramId, Program}
use vcli.Store.Rows.{Store, ProgramRow, list_programs}
use vcli.Dsl.Error.{DslError}
use vcli.Dsl.Validation.{Validated}
use vcli.Runtime.Program.{submit_validated}
use vcli.Daemon.Assets.{Outcome, materialize_template_assets}
use vcli.Daemon.Service.{Daemon, Host, validate_value, send_command}
pub mod Waiting

-- An item of the vector `reloaded`.
pub record Reloaded : Type 0 where
  pub id : ProgramId
  pub program : Program
  pub assets : Dict (List ℕ)

-- What the closure answers for a row, with the store that it leaves.
abbrev pub materialized : ProgramId → Outcome Program → Option Reloaded × Store
materialized k (err e, (s, out)) = (none, s)
materialized k (ok q, (s, out)) = (some (record { id = k; program = q; assets = out.bytes }), s)

abbrev pub add_reloaded : Option Reloaded → List Reloaded → List Reloaded
add_reloaded none rs = rs
add_reloaded (some r) rs = r ∷ rs

-- The number of the commands that were sent.
unfoldable pub send_all : List Reloaded → Daemon → ℕ × Daemon
unfolding send_command
send_all [] d = (0, d)
send_all (r ∷ rs) d =
    let (sent, e) = send_command (submit_validated r.id r.program r.assets) d in
    let (n, f) = send_all rs e in ((if sent then suc n else n), f)

module _ (host : Host) where
  abbrev pub reload_valid :
      ProgramRow → Store → Option (Result DslError Validated) → Option (Option Reloaded × Store)
  reload_valid r s none = none
  reload_valid r s (some (err e)) = some (none, s)
  reload_valid r s (some (ok v)) =
      some (materialized r.id (materialize_template_assets host.files none host.now_ms s v.program))

  abbrev pub reload_text :
      ProgramRow → Store → Result String (Unit {0}) → Option (Option Reloaded × Store)
  reload_text r s (err e) = some (none, s)
  reload_text r s (ok u) = reload_valid r s (validate_value host r.source_json)

  unfoldable pub reload_row : ProgramRow → Store → Option (Option Reloaded × Store)
  unfolding validate_value materialize_template_assets
  reload_row r s = reload_text r s (host.read_json r.source_json)

  -- `filter_map` over the rows.
  unfoldable pub reload_rows : List ProgramRow → Store → Option (List Reloaded × Store)
  unfolding reload_row
  reload_rows [] s = some ([], s)
  reload_rows (r ∷ rs) s = elim (reload_row r s) [
    | none ↦ none
    | some (found, t) ↦ elim (reload_rows rs t) [
      | none ↦ none
      | some (rest, u) ↦ some (add_reloaded found rest, u)
    ]
  ]

  unfoldable pub reload_waiting_programs : Daemon → Option (ℕ × Daemon)
  unfolding reload_rows send_all list_programs
  reload_waiting_programs d = elim (reload_rows (list_programs d.store (some waiting)) d.store) [
    | none ↦ none
    | some (reloaded, s) ↦ some (send_all reloaded (record d { store = s }))
  ]
