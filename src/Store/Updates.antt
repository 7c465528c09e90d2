-- ===== src/Store/Updates.antt =====
-- Lookup of a row after the statements of `Rows`.
use vcli.Prelude.{
  ◌≡◌, refl, Bool, some, List, [], ◌∷◌, arith, ◌==◌, if◌then◌else◌, map_option, ok, ℤ,
}
use vcli.Core.State.{ProgramState}
use vcli.Core.Program.{ProgramId}
use vcli.Store.Rows.{Store, ProgramRow, has_id, update_where, find_row, set_state, update_state}

-- What an UPDATE does to one row.
abbrev pub touched : (ProgramRow → Bool) → (ProgramRow → ProgramRow) → ProgramRow → ProgramRow
touched p f r = if p r then f r else r

pub find_row-update_where :
    (p : ProgramRow → Bool) (f : ProgramRow → ProgramRow) (j : ProgramId) (rows : List ProgramRow)
    → ((r : ProgramRow) → (f r).id ≡ r.id)
    → find_row j (update_where p f rows) ≡ map_option (touched p f) (find_row j rows)
unfolding find_row update_where
find_row-update_where p f j [] same = refl
find_row-update_where p f j (r ∷ rs) same =
    ground (arith, same r, find_row-update_where p f j rs same)

pub find_row-has_id :
    (k : ProgramId) (rows : List ProgramRow) (r : ProgramRow) → find_row k rows ≡ some r → r.id ≡ k
unfolding find_row
find_row-has_id k [] r e = cc
find_row-has_id k (q ∷ qs) r e = ground (arith, find_row-has_id k qs r)

-- An UPDATE of the rows of one id, seen through another lookup.
pub find_row-update_id :
    (k j : ProgramId) (f : ProgramRow → ProgramRow) (rows : List ProgramRow)
    → ((r : ProgramRow) → (f r).id ≡ r.id)
    → find_row j (update_where (has_id k) f rows)
      ≡ (if k == j then map_option f (find_row j rows) else find_row j rows)
unfolding find_row update_where
find_row-update_id k j f [] same = ground arith
find_row-update_id k j f (r ∷ rs) same = ground (arith, same r, find_row-update_id k j f rs same)

pub set_state-id : (new : ProgramState) (now : ℤ) (r : ProgramRow) → (set_state new now r).id ≡ r.id
unfolding set_state
set_state-id new now r = refl

-- Each statement on one program, seen through a lookup: a missing row makes it fail, and then
-- nothing changes.
pub find_row-update_state :
    (s t : Store) (k j : ProgramId) (new : ProgramState) (now : ℤ)
    → update_state s k new now ≡ ok t
    → find_row j t.programs ≡ (
        if k == j
        then map_option (set_state new now) (find_row j s.programs)
        else find_row j s.programs)
unfolding update_state
find_row-update_state s t k j new now e =
    ground (arith, find_row-update_id k j (set_state new now) s.programs (set_state-id new now))
