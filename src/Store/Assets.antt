-- ===== src/Store/Assets.antt =====
-- crates/vcli-store/src/assets.rs: the content-addressed files and their rows.
use vcli.Prelude.{
  ℕ, ◌-◌, ◌^◌, String, Bool, false, not, ◌&&◌, ◌||◌, Option, none, some, List, [], ◌∷◌, ◌++◌,
  str_eq, ltb, ◌==◌, if◌then◌else◌, length, Result, ok, err, ℤ,
}
use vcli.Core.Program.{ProgramId}
use vcli.Store.Rows.{Store, StoreError, constraint, find_row, Asset}
use vcli.Store.Gc.{has_blob, is_known}
pub mod Upkeep
pub mod Links

-- `i64::try_from(bytes.len()).unwrap_or(i64::MAX)`
abbrev pub stored_len : ℕ → ℕ
stored_len n = if ltb n (2 ^ 63) then n else 2 ^ 63 - 1

-- `of_bytes` is the SHA-256 digest, in hex. The file is written unless it is there, and the row is
-- inserted unless one has the hash (`ON CONFLICT(hash) DO NOTHING`). The result is the hash and
-- whether the file was created.
unfoldable pub put_asset :
    (List ℕ → String) → Store → List ℕ → Option String → ℤ → Store × String × Bool
put_asset of_bytes s bytes extension now_ms =
    let hash = of_bytes bytes in
    let here = has_blob s.blobs hash extension in
    (
      record s {
        blobs = if here then s.blobs else s.blobs ++ (hash, extension) ∷ [];
        assets =
            if is_known s.assets hash
            then s.assets
            else s.assets
              ++ record {
                hash = hash;
                byte_len = stored_len (length bytes);
                extension = extension;
                added_at = now_ms;
              }
                ∷ [];
      },
      hash,
      not here,
    )

-- The primary key of `program_assets`.
unfoldable pub has_link : List (ProgramId × String) → ProgramId → String → Bool
has_link [] k h = false
has_link (l ∷ ls) k h = (l.0 == k && str_eq l.1 h) || has_link ls k h

-- `INSERT OR IGNORE`: a row that is there already stays, and the foreign key wants the program.
unfoldable pub link_program_asset : Store → ProgramId → String → Result StoreError Store
link_program_asset s k hash =
    if has_link s.program_assets k hash then ok s else elim (find_row k s.programs) [
      | none ↦ err constraint
      | some r ↦ ok (record s { program_assets = s.program_assets ++ (k, hash) ∷ [] })
    ]

-- The `extension` column of a hash, or NULL where there is no row.
unfoldable pub extension_of : List Asset → String → Option String
extension_of [] hash = none
extension_of (a ∷ rest) hash = if str_eq a.hash hash then a.extension else extension_of rest hash

-- `contents` is the bytes that a digest stands for, which are the bytes of each of its files.
unfoldable pub get_asset : (String → List ℕ) → Store → String → Option (List ℕ)
unfolding extension_of
get_asset contents s hash =
    if has_blob s.blobs hash (extension_of s.assets hash) then some (contents hash) else none
