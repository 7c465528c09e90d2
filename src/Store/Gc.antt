-- ===== src/Store/Gc.antt =====
-- crates/vcli-store/src/gc.rs: terminal programs past retention, assets that no program links, and
-- files without a row. A file is its stem and extension, and each file can be removed.
use vcli.Prelude.{
  ℕ, ◌+◌, String, Bool, true, false, not, ◌&&◌, ◌||◌, Option, none, some, List, [], ◌∷◌, map,
  str_eq, if◌then◌else◌, count, keep, ℤ, ltb_ℤ,
}
use vcli.Core.State.{is_terminal}
use vcli.Core.Program.{ProgramId}
use vcli.Store.Rows.{Store, ProgramRow, Asset, find_row}
pub mod Integrity
pub mod Collection
pub mod Retention
pub mod Inserts

abbrev pub retention_days : ℕ
retention_days = 7

pub record GcReport : Type 0 where
  pub programs_deleted : ℕ
  pub assets_deleted : ℕ
  pub blobs_deleted : ℕ
  pub orphan_blobs_deleted : ℕ

-- The condition of the DELETE.
abbrev pub is_expired : ℤ → ProgramRow → Bool
is_expired cutoff r =
    is_terminal r.state && elim r.finished_at [ none ↦ false | some t ↦ ltb_ℤ t cutoff ]

abbrev pub is_kept : ℤ → ProgramRow → Bool
is_kept cutoff r = not (is_expired cutoff r)

abbrev pub has_program : List ProgramRow → ProgramId → Bool
has_program rows k = elim (find_row k rows) [ none ↦ false | some r ↦ true ]

-- The rows go, and `ON DELETE CASCADE` takes the events and links of each.
unfoldable pub gc_programs : Store → ℤ → Store × ℕ
gc_programs s cutoff =
    let rows = keep (is_kept cutoff) s.programs in
    (
      record s {
        programs = rows;
        events = keep (λ e. has_program rows e.program_id) s.events;
        program_assets = keep (λ l. has_program rows l.0) s.program_assets;
      },
      count (is_expired cutoff) s.programs,
    )

unfoldable pub is_linked : List (ProgramId × String) → String → Bool
is_linked [] h = false
is_linked ((k, g) ∷ ls) h = str_eq g h || is_linked ls h

abbrev pub ext_eq : Option String → Option String → Bool
ext_eq none none = true
ext_eq (some a) (some b) = str_eq a b
ext_eq _ _ = false

unfoldable pub has_blob : List (String × Option String) → String → Option String → Bool
has_blob [] h ext = false
has_blob ((g, e) ∷ bs) h ext = (str_eq g h && ext_eq e ext) || has_blob bs h ext

abbrev is_other_blob : String → Option String → String × Option String → Bool
is_other_blob h ext (g, e) = not (str_eq g h && ext_eq e ext)

-- `fs::remove_file` of the asset's path, if it is there, for each unreferenced asset.
unfoldable pub remove_blobs :
    List Asset → List (String × Option String) → List (String × Option String) × ℕ
unfolding has_blob
remove_blobs [] bs = (bs, 0)
remove_blobs (a ∷ rest) bs =
    let here = has_blob bs a.hash a.extension in
    let (left, n) =
      remove_blobs rest (if here then keep (is_other_blob a.hash a.extension) bs else bs) in
    (left, if here then n + 1 else n)

unfoldable pub gc_assets : Store → Store × ℕ × ℕ
unfolding is_linked remove_blobs
gc_assets s =
    let unreferenced = keep (λ a. not (is_linked s.program_assets a.hash)) s.assets in
    let (left, blobs_deleted) = remove_blobs unreferenced s.blobs in
    (
      record s { assets = keep (λ a. is_linked s.program_assets a.hash) s.assets; blobs = left },
      count (λ a. not (is_linked s.program_assets a.hash)) s.assets,
      blobs_deleted,
    )

unfoldable pub is_known : List Asset → String → Bool
is_known [] h = false
is_known (a ∷ rest) h = str_eq a.hash h || is_known rest h

-- `str::ends_with`
abbrev pub ends_with : String → String → Bool
ends_with String.[] suffix = str_eq "" suffix
ends_with (String.◌∷◌ c s) suffix = str_eq (String.◌∷◌ c s) suffix || ends_with s suffix

-- The file walk: a stem that no row names, and that does not end in "tmp". The file `<hash>.tmp` of
-- a write in progress has the stem `<hash>`.
abbrev pub is_orphan : List Asset → String × Option String → Bool
is_orphan known (stem, ext) = not (is_known known stem) && not (ends_with stem "tmp")

unfoldable pub gc_orphan_blobs : Store → Store × ℕ
unfolding is_known
gc_orphan_blobs s = (
  record s { blobs = keep (λ b. not (is_orphan s.assets b)) s.blobs },
  count (is_orphan s.assets) s.blobs,
)

unfoldable pub list_orphan_blob_names : Store → List String
unfolding is_known
list_orphan_blob_names s = map (λ b. b.0) (keep (is_orphan s.assets) s.blobs)

unfoldable pub gc_all : Store → ℤ → Store × GcReport
gc_all s cutoff =
    let (s1, programs) = gc_programs s cutoff in
    let (s2, rows, files) = gc_assets s1 in
    let (s3, orphans) = gc_orphan_blobs s2 in
    (
      s3,
      record {
        programs_deleted = programs;
        assets_deleted = rows;
        blobs_deleted = files;
        orphan_blobs_deleted = orphans;
      },
    )
