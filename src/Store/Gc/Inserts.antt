-- ===== src/Store/Gc/Inserts.antt =====
-- A new program and a new event.
use vcli.Prelude.{
  suc, ◌≡◌, refl, subst, ◌⊎◌, inl, inr, true, false, none, some, List, [], ◌∷◌, ◌++◌, ◌==◌,
  if◌then◌else◌, ==_refl, Bool-cases, Option-cases, All-append, All-map, ok, err,
}
use vcli.Core.Program.{ProgramId}
use vcli.Core.Event.{Event}
use vcli.Store.Rows.{
  Store, ProgramRow, NewProgram, constraint, find_row, insert_program, append_event,
}
use vcli.Store.Gc.{has_program}
use vcli.Store.Gc.Integrity.{HasIntegrity}

has_program-skip :
    (r : ProgramRow) (rows : List ProgramRow) (k : ProgramId)
    → (r.id == k) ≡ false
    → has_program rows k ≡ true
    → has_program (r ∷ rows) k ≡ true
unfolding find_row
has_program-skip r rows k other e = rw (other, has_program) e

has_program-rest :
    (r : ProgramRow) (rows : List ProgramRow) (k : ProgramId)
    → (r.id == k) ≡ false
    → has_program (r ∷ rows) k ≡ true
    → has_program rows k ≡ true
unfolding find_row
has_program-rest r rows k other e =
    subst
      (λ b. elim (if b then some r else find_row k rows) [ none ↦ false | some x ↦ true ] ≡ true)
      other e

has_program-append :
    (rows more : List ProgramRow) (k : ProgramId)
    → has_program rows k ≡ true
    → has_program (rows ++ more) k ≡ true
unfolding find_row
has_program-append [] more k e = cc e
has_program-append (r ∷ rows) more k e = elim (Bool-cases (r.id == k)) [
  | inl same ↦ rw (same, has_program) refl
  | inr other ↦
      has_program-skip r (rows ++ more) k other
        (has_program-append rows more k (has_program-rest r rows k other e))
]

has_program-last :
    (rows : List ProgramRow) (r : ProgramRow) → has_program (rows ++ r ∷ []) r.id ≡ true
unfolding find_row
has_program-last [] r = rw (==_refl r.id, has_program) refl
has_program-last (q ∷ rows) r = elim (Bool-cases (q.id == r.id)) [
  | inl same ↦ rw (same, has_program) refl
  | inr other ↦ has_program-skip q (rows ++ r ∷ []) r.id other (has_program-last rows r)
]

-- In a store with integrity, a program whose id is free is inserted, is there then, and the store
-- keeps its integrity.
pub insert_program-HasIntegrity :
    (s : Store) (n : NewProgram)
    → HasIntegrity s
    → find_row n.id s.programs ≡ none
    → (t : Store) × (insert_program s n ≡ ok t)
      × (has_program t.programs n.id ≡ true)
      × HasIntegrity t
unfolding insert_program
insert_program-HasIntegrity s n h free =
    let row : ProgramRow = record {
      id = n.id;
      name = n.name;
      source_json = n.source_json;
      state = n.state;
      submitted_at = n.submitted_at;
      started_at = none;
      finished_at = none;
      last_error_code = none;
      last_error_msg = none;
      labels_json = n.labels_json;
      body_cursor = 0;
      body_entered_at = none;
    } in
    (
      record s { programs = s.programs ++ row ∷ [] },
      rw (free, insert_program) refl,
      has_program-last s.programs row,
      record {
        events =
            All-map s.events (λ e x. has_program-append s.programs (row ∷ []) e.program_id x)
              h.events;
        links =
            All-map s.program_assets
              (λ l x. (has_program-append s.programs (row ∷ []) l.0 x.0, x.1)) h.links;
        files = h.files;
      },
    )

-- In a store with integrity, an event of a program that is there is appended as the last one, and
-- the store keeps its integrity; an event of another program is refused.
pub append_event-HasIntegrity :
    (s : Store) (k : ProgramId) (ev : Event)
    → HasIntegrity s
    → ((has_program s.programs k ≡ true)
        × ((t : Store) × (append_event s k ev ≡ ok t)
            × (t.events
                ≡ s.events ++ record { id = suc s.last_event_id; program_id = k; event = ev } ∷ [])
            × HasIntegrity t))
      ⊎ ((has_program s.programs k ≡ false) × (append_event s k ev ≡ err constraint))
unfolding append_event
append_event-HasIntegrity s k ev h = elim (Option-cases (find_row k s.programs)) [
  | inl missing ↦ inr (rw (missing, has_program) refl, rw (missing, append_event) refl)
  | inr (r, found) ↦
      let here : has_program s.programs k ≡ true = rw (found, has_program) refl in
      inl (
        here,
        (
          record s {
            events =
                s.events ++ record { id = suc s.last_event_id; program_id = k; event = ev } ∷ [];
            last_event_id = suc s.last_event_id;
          },
          rw (found, append_event) refl,
          refl,
          record {
            events = All-append _ s.events _ h.events (here, tt);
            links = h.links;
            files = h.files;
          },
        ),
      )
]
