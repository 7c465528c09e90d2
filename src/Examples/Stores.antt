-- ===== src/Examples/Stores.antt =====
-- Restarts, resumes and collections of one store.
use vcli.Prelude.{◌≡◌, refl, false, some, [], ◌∷◌, err, pos}
use vcli.Core.State.{completed, running}
use vcli.Store.Rows.{Store, not_resumable, find_row}
use vcli.Store.Resume.{resume_program}
use vcli.Store.Gc.{
  is_linked, has_blob, is_known, gc_programs, gc_assets, gc_orphan_blobs, remove_blobs, gc_all,
}
use vcli.Store.Gc.Integrity.{HasIntegrity}
use vcli.Store.Gc.Retention.{IsClean, unfinished}
use vcli.Store.Gc.Collection.{gc_all-HasIntegrity, gc_all-IsClean, KeepsProgram, gc_all-keeps}
use vcli.Daemon.Restart.{restart, resume-restart}
use vcli.Examples.Data.{row, one_row}

held_row : find_row 7 one_row.programs ≡ some (row 7 running)
unfolding find_row
held_row = refl

resume-restart_example :
    resume_program (restart one_row (pos 5)) 7 false (pos 9) ≡ err not_resumable
resume-restart_example =
    resume-restart one_row 7 (row 7 running) false (pos 5) (pos 9) held_row refl

-- The link of the running program, and the files of both assets, are in order.
pub one_row-HasIntegrity : HasIntegrity one_row
unfolding find_row is_known has_blob
one_row-HasIntegrity = record {
  events = tt;
  links = ((refl, refl), tt);
  files = (refl, (refl, tt));
}

gc_all-HasIntegrity_example : HasIntegrity (gc_all one_row (pos 100)).0
gc_all-HasIntegrity_example = gc_all-HasIntegrity one_row (pos 100) one_row-HasIntegrity

-- Beside the running program one that has ended long ago, with a link of its own.
abbrev two_rows : Store
two_rows = record one_row {
  programs = row 7 running ∷ record (row 8 completed) { finished_at = some (pos 5) } ∷ [];
  program_assets = (7, "aa") ∷ (8, "bb") ∷ [];
}

gc_all-IsClean_example : IsClean (pos 100) (gc_all two_rows (pos 100)).0
gc_all-IsClean_example = gc_all-IsClean two_rows (pos 100)

held_first : find_row 7 two_rows.programs ≡ some (row 7 running)
unfolding find_row
held_first = refl

gc_all-keeps_example : KeepsProgram 7 (row 7 running) two_rows (gc_all two_rows (pos 100)).0
gc_all-keeps_example = gc_all-keeps two_rows (pos 100) 7 (row 7 running) held_first (unfinished tt)

-- The program that has ended goes with its link, and so its asset with the file.
collected_two : (gc_all two_rows (pos 100)).0 ≡ record one_row {
  assets = record { hash = "aa"; byte_len = 1; extension = some "png"; added_at = pos 0 } ∷ [];
  blobs = ("aa", some "png") ∷ [];
}
unfolding gc_all gc_programs gc_assets gc_orphan_blobs remove_blobs has_blob is_linked is_known
    find_row
collected_two = refl

-- The unlinked asset goes with its file, and so does the file that no row names.
collected : (gc_all one_row (pos 100)).0.blobs ≡ ("aa", some "png") ∷ []
unfolding gc_all gc_programs gc_assets gc_orphan_blobs remove_blobs has_blob is_linked is_known
    find_row
collected = refl
