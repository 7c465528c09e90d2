-- ===== src/Store/Rows.antt =====
-- crates/vcli-store/src/store.rs and events.rs: the tables and the statements on one program.
use vcli.Prelude.{
  ℕ, zero, suc, String, Bool, true, false, Option, none, some, List, [], ◌∷◌, ◌++◌, ltb, ◌==◌,
  if◌then◌else◌, keep, Result, ok, err, ℤ, leb_ℤ,
}
use vcli.Core.State.{ProgramState, running, failed, is_terminal, state_eq}
use vcli.Core.Program.{ProgramId}
use vcli.Core.Event.{Event}

pub record ProgramRow : Type 0 where
  pub id : ProgramId
  pub name : String
  pub source_json : String
  pub state : ProgramState
  pub submitted_at : ℤ
  pub started_at : Option ℤ
  pub finished_at : Option ℤ
  pub last_error_code : Option String
  pub last_error_msg : Option String
  pub labels_json : String
  pub body_cursor : ℕ
  pub body_entered_at : Option ℤ

pub record NewProgram : Type 0 where
  pub id : ProgramId
  pub name : String
  pub source_json : String
  pub state : ProgramState
  pub submitted_at : ℤ
  pub labels_json : String

pub record StoredEvent : Type 0 where
  pub id : ℕ
  pub program_id : ProgramId
  pub event : Event

pub record Asset : Type 0 where
  pub hash : String
  pub byte_len : ℕ
  pub extension : Option String
  pub added_at : ℤ

-- `last_event_id` is the AUTOINCREMENT counter, `blobs` the hash and extension of each file.
pub record Store : Type 0 where
  pub programs : List ProgramRow
  pub events : List StoredEvent
  pub last_event_id : ℕ
  pub program_assets : List (ProgramId × String)
  pub assets : List Asset
  pub blobs : List (String × Option String)

pub data StoreError : Type 0 where
  unknown_program not_resumable constraint : StoreError

pub record RecoveredProgram : Type 0 where
  pub id : ProgramId
  pub body_cursor : ℕ

-- `WHERE id = ?`
abbrev pub has_id : ProgramId → ProgramRow → Bool
has_id k r = r.id == k

-- `UPDATE programs SET … WHERE …`
unfoldable pub update_where :
    (ProgramRow → Bool) → (ProgramRow → ProgramRow) → List ProgramRow → List ProgramRow
update_where p f [] = []
update_where p f (r ∷ rs) = (if p r then f r else r) ∷ update_where p f rs

-- `query_row`: the first row, or QueryReturnedNoRows.
unfoldable pub find_row : ProgramId → List ProgramRow → Option ProgramRow
find_row k [] = none
find_row k (r ∷ rs) = if r.id == k then some r else find_row k rs

unfoldable pub insert_program : Store → NewProgram → Result StoreError Store
insert_program s n = elim (find_row n.id s.programs) [
  | some r ↦ err constraint
  | none ↦ ok (record s {
    programs =
        s.programs
        ++ record {
          id = n.id;
          name = n.name;
          source_json = n.source_json;
          state = n.state;
          submitted_at = n.submitted_at;
          started_at = none;
          finished_at = none;
          last_error_code = none;
          last_error_msg = none;
          labels_json = n.labels_json;
          body_cursor = 0;
          body_entered_at = none;
        }
          ∷ [];
  })
]

unfoldable pub get_program : Store → ProgramId → Result StoreError ProgramRow
get_program s k = elim (find_row k s.programs) [ some r ↦ ok r | none ↦ err unknown_program ]

-- `COALESCE(a, b)`
abbrev pub coalesce {ℓ} : {A : Type ℓ} → Option A → Option A → Option A
coalesce (some a) b = some a
coalesce none b = b

unfoldable pub set_state : ProgramState → ℤ → ProgramRow → ProgramRow
set_state new now r = record r {
  state = new;
  started_at = coalesce r.started_at (if state_eq new running then some now else none);
  finished_at = if is_terminal new then some now else r.finished_at;
}

-- A statement that must change a row: no row of that id is `UnknownProgram`.
abbrev checked_update : Store → ProgramId → (ProgramRow → ProgramRow) → Result StoreError Store
checked_update s k f = elim (find_row k s.programs) [
  | some r ↦ ok (record s { programs = update_where (has_id k) f s.programs })
  | none ↦ err unknown_program
]

unfoldable pub update_state : Store → ProgramId → ProgramState → ℤ → Result StoreError Store
unfolding set_state
update_state s k new now = checked_update s k (set_state new now)

unfoldable pub set_body_cursor : Store → ProgramId → ℕ → Result StoreError Store
set_body_cursor s k cursor = checked_update s k (λ r. record r { body_cursor = cursor })

abbrev pub error_set : String → String → ProgramRow → ProgramRow
error_set code msg r = record r { last_error_code = some code; last_error_msg = some msg }

unfoldable pub set_last_error : Store → ProgramId → String → String → Store
set_last_error s k code msg = record s {
  programs = update_where (has_id k) (error_set code msg) s.programs;
}

-- The foreign key of `events` wants the program to exist.
unfoldable pub append_event : Store → ProgramId → Event → Result StoreError Store
append_event s k ev = elim (find_row k s.programs) [
  | none ↦ err constraint
  | some r ↦ ok (record s {
    events = s.events ++ record { id = suc s.last_event_id; program_id = k; event = ev } ∷ [];
    last_event_id = suc s.last_event_id;
  })
]

abbrev pub is_running : ProgramRow → Bool
is_running r = state_eq r.state running

unfoldable pub recovered_of : List ProgramRow → List RecoveredProgram
recovered_of [] = []
recovered_of (r ∷ rs) =
    if is_running r
    then record { id = r.id; body_cursor = r.body_cursor } ∷ recovered_of rs
    else recovered_of rs

abbrev pub restarted : ProgramRow → ProgramRow
restarted r = record r {
  state = failed;
  last_error_code = some "daemon_restart";
  last_error_msg = some "daemon restarted during execution";
}

abbrev is_empty {ℓ} : {A : Type ℓ} → List A → Bool
is_empty [] = true
is_empty (x ∷ xs) = false

-- The UPDATE runs if a row was found.
unfoldable pub recover_running_programs : Store → Store × List RecoveredProgram
unfolding recovered_of
recover_running_programs s =
    let recovered = recovered_of s.programs in
    (
      if is_empty recovered
          then s
          else record s { programs = update_where is_running restarted s.programs },
      recovered,
    )

-- `ORDER BY submitted_at ASC, rowid ASC`: a row goes behind the earlier rows of its time.
place : ProgramRow → List ProgramRow → List ProgramRow
place r [] = r ∷ []
place r (q ∷ qs) = if leb_ℤ q.submitted_at r.submitted_at then q ∷ place r qs else r ∷ q ∷ qs

sort_onto : List ProgramRow → List ProgramRow → List ProgramRow
sort_onto done [] = done
sort_onto done (r ∷ rs) = sort_onto (place r done) rs

abbrev wanted : Option ProgramState → ProgramRow → Bool
wanted none r = true
wanted (some s) r = state_eq r.state s

unfoldable pub list_programs : Store → Option ProgramState → List ProgramRow
unfolding sort_onto place
list_programs s filter = sort_onto [] (keep (wanted filter) s.programs)

abbrev pub take_events : ℕ → List StoredEvent → List StoredEvent
take_events zero es = []
take_events (suc n) [] = []
take_events (suc n) (e ∷ es) = e ∷ take_events n es

-- `since` and `limit` in the order of the source; the table is in the order of its ids.
unfoldable pub stream_events : Store → ℕ → ℕ → List StoredEvent
stream_events s since limit = take_events limit (keep (λ e. ltb since e.id) s.events)
