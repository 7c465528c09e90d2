-- ===== src/Daemon/Persist.antt =====
-- crates/vcli-daemon/src/persist.rs: the pump writes each program-scoped event to the store before
-- it forwards the event. An error of the store is logged and dropped.
use vcli.Prelude.{Option, none, some, List, [], ◌∷◌, Result, ok, err, ℤ}
use vcli.Core.State.{running, completed, failed}
use vcli.Core.Program.{ProgramId}
use vcli.Core.Event.{
  EventData, program_state_changed, program_completed, program_failed, program_resumed, Event,
  program_id_of,
}
use vcli.Store.Rows.{Store, StoreError, append_event, update_state, set_body_cursor, set_last_error}

-- `if let Err(e) = … { error!(…) }`: the store stays as it was.
abbrev pub or_logged : Store → Result StoreError Store → Store
or_logged s (ok t) = t
or_logged s (err e) = s

abbrev pub unwrap_or {ℓ} : {A : Type ℓ} → Option A → A → A
unwrap_or none d = d
unwrap_or (some a) d = a

-- The match on the event.
unfoldable pub apply_event : Store → ProgramId → ℤ → EventData → Store
apply_event s k at (program_state_changed _ _ to _) = or_logged s (update_state s k to at)
apply_event s k at (program_completed _ _) = or_logged s (update_state s k completed at)
apply_event s k at (program_failed _ reason step _) =
    set_last_error (or_logged s (update_state s k failed at)) k reason (unwrap_or step reason)
apply_event s k at (program_resumed _ from_step) =
    let s' = or_logged s (update_state s k running at) in
    or_logged s' (set_body_cursor s' k from_step)
apply_event s k at _ = s

unfoldable pub persist_program_event : Store → ProgramId → Event → Store
unfolding apply_event
persist_program_event s k ev = apply_event (or_logged s (append_event s k ev)) k ev.at ev.content

-- One turn of the loop: the store, and the event that is broadcast.
unfoldable pub pump_event : Store → Event → Store
unfolding persist_program_event
pump_event s ev = elim (program_id_of ev.content) [
  | none ↦ s
  | some k ↦ persist_program_event s k ev
]

unfoldable pub spawn_event_pump : Store → List Event → Store
unfolding pump_event
spawn_event_pump s [] = s
spawn_event_pump s (ev ∷ evs) = spawn_event_pump (pump_event s ev) evs
