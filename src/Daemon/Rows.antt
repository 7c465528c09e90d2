-- ===== src/Daemon/Rows.antt =====
-- What the event pump does to the row of a program, statement by statement.
use vcli.Prelude.{
  ℕ, String, ◌≡◌, refl, inl, inr, Option, none, some, arith, ◌==◌, if◌then◌else◌, Option-cases,
  map_option, ℤ,
}
use vcli.Core.State.{ProgramState, running, completed, failed}
use vcli.Core.Program.{ProgramId}
use vcli.Core.Event.{
  EventData, program_state_changed, program_completed, program_failed, program_resumed, Event,
  program_id_of,
}
use vcli.Store.Rows.{
  Store, ProgramRow, find_row, set_state, update_state, set_body_cursor, error_set, set_last_error,
  append_event,
}
use vcli.Store.Updates.{find_row-update_id, set_state-id}
use vcli.Daemon.Persist.{or_logged, unwrap_or, apply_event, pump_event}

-- What an event writes into the row of its program.
abbrev pub row_after : EventData → ℤ → ProgramRow → ProgramRow
row_after (program_state_changed _ _ to _) at r = set_state to at r
row_after (program_completed _ _) at r = set_state completed at r
row_after (program_failed _ reason step _) at r =
    error_set reason (unwrap_or step reason) (set_state failed at r)
row_after (program_resumed _ from_step) at r =
    let q = set_state running at r in record q { body_cursor = from_step }
row_after _ at r = r

-- `x`, changed if it is of the program that the event is about.
abbrev pub if_about :
    Option ProgramId → ProgramId → (ProgramRow → ProgramRow) → Option ProgramRow → Option ProgramRow
if_about none j f x = x
if_about (some k) j f x = if k == j then map_option f x else x

module _ (s : Store) (k j : ProgramId) where
  abbrev hit : (ProgramRow → ProgramRow) → Option ProgramRow
  hit f = if_about (some k) j f (find_row j s.programs)

  logged-update_state :
      (new : ProgramState) (now : ℤ)
      → find_row j (or_logged s (update_state s k new now)).programs ≡ hit (set_state new now)
  unfolding update_state
  logged-update_state new now =
      ground (arith, find_row-update_id k j (set_state new now) s.programs (set_state-id new now))

  logged-set_body_cursor :
      (n : ℕ)
      → find_row j (or_logged s (set_body_cursor s k n)).programs
        ≡ hit (λ r. record r { body_cursor = n })
  unfolding set_body_cursor
  logged-set_body_cursor n = ground (
    arith,
    find_row-update_id k j (λ (r : ProgramRow). record r { body_cursor = n }) s.programs
        (λ r. refl),
  )

  find_row-set_last_error :
      (code msg : String)
      → find_row j (set_last_error s k code msg).programs ≡ hit (error_set code msg)
  unfolding set_last_error
  find_row-set_last_error code msg =
      find_row-update_id k j (error_set code msg) s.programs (λ r. refl)

  logged-append_event : (ev : Event) → (or_logged s (append_event s k ev)).programs ≡ s.programs
  unfolding append_event
  logged-append_event ev = ground arith

find_row-apply_event :
    (s : Store) (k j : ProgramId) (at : ℤ) (d : EventData)
    → find_row j (apply_event s k at d).programs
      ≡ if_about (some k) j (row_after d at) (find_row j s.programs)
unfolding apply_event
find_row-apply_event s k j at (program_state_changed _ _ to _) = logged-update_state s k j to at
find_row-apply_event s k j at (program_completed _ _) = logged-update_state s k j completed at
find_row-apply_event s k j at (program_failed _ reason step _) =
    let s' = or_logged s (update_state s k failed at) in
    ground (
      arith,
      find_row-set_last_error s' k j reason (unwrap_or step reason),
      logged-update_state s k j failed at,
    )
find_row-apply_event s k j at (program_resumed _ n) =
    let s' = or_logged s (update_state s k running at) in
    ground (arith, logged-set_body_cursor s' k j n, logged-update_state s k j running at)
find_row-apply_event s k j at _ = ground arith

-- One turn of the pump rewrites the row of the event's program as the event says, if there is such
-- a row, and leaves every other row alone.
pub find_row-pump_event :
    (s : Store) (j : ProgramId) (ev : Event)
    → find_row j (pump_event s ev).programs
      ≡ if_about (program_id_of ev.content) j (row_after ev.content ev.at) (find_row j s.programs)
unfolding pump_event
find_row-pump_event s j ev = elim (Option-cases (program_id_of ev.content)) [
  | inl e ↦ rw (e, pump_event) refl
  | inr (k, e) ↦
      rw (e, pump_event)
        (ground (
          arith,
          find_row-apply_event (or_logged s (append_event s k ev)) k j ev.at ev.content,
          logged-append_event s k j ev,
        ))
]
