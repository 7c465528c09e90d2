-- ===== src/Examples/Files.antt =====
-- New rows and files of one store: an asset that is stored under a second extension, one that is
-- linked, a program and an event.
use vcli.Store.Rows.{Store, find_row, NewProgram}
use vcli.Store.Gc.{has_blob, is_known, has_program}
use vcli.Store.Gc.Integrity.{HasIntegrity}
use vcli.Store.Assets.{put_asset}
use vcli.Store.Assets.Upkeep.{put_asset-HasIntegrity}
use vcli.Prelude.{ℕ, ◌≡◌, refl, String, true, none, some, List, [], ◌∷◌, pos}
use vcli.Core.State.{pending, running, failed}
use vcli.Core.Event.{Event, program_state_changed}
use vcli.Store.Rows.{NewProgram}
use vcli.Examples.Data.{one_row}
use vcli.Examples.Stores.{one_row-HasIntegrity}

-- A digest with two values.
abbrev digest : List ℕ → String
digest [] = "aa"
digest (b ∷ bs) = "cc"

abbrev with_file : Store
with_file = (put_asset digest one_row (1 ∷ 2 ∷ []) (some "png") (pos 30)).0

put_asset-HasIntegrity_example :
    HasIntegrity with_file
    × (is_known with_file.assets "cc" ≡ true)
    × (has_blob with_file.blobs "cc" (some "png") ≡ true)
unfolding put_asset
put_asset-HasIntegrity_example =
    put_asset-HasIntegrity digest one_row (1 ∷ 2 ∷ []) (some "png") (pos 30) one_row-HasIntegrity

-- The row of "aa" keeps its extension, and the file of the other extension is created.
stored_again :
    ((put_asset digest one_row [] none (pos 30)).1 ≡ "aa")
    × ((put_asset digest one_row [] none (pos 30)).2 ≡ true)
unfolding put_asset has_blob
stored_again = (refl, refl)

row_is_there : has_program one_row.programs 7 ≡ true
unfolding find_row
row_is_there = refl

known_there : is_known one_row.assets "bb" ≡ true
unfolding is_known
known_there = refl

abbrev newcomer : NewProgram
newcomer = record {
  id = 8;
  name = "newcomer";
  source_json = "{}";
  state = pending;
  submitted_at = pos 4;
  labels_json = "{}";
}

free_id : find_row 8 one_row.programs ≡ none
unfolding find_row
free_id = refl

abbrev stopped : Event
stopped = record { at = pos 5; content = program_state_changed 7 running failed "stopped" }
