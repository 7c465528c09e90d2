-- ===== src/Daemon/Assets/Stocked.antt =====
-- A store whose files all have rows, and what storing one more asset keeps.
use vcli.Prelude.{
  ℕ, String, ◌≡◌, subst, inl, inr, true, ◌&&◌, ◌||◌, Option, List, [], ◌∷◌, str_eq, eq_iff,
  Bool-cases, length, All, All-append, All-map, ℤ,
}
use vcli.Store.Rows.{Store, ProgramRow, Asset}
use vcli.Store.Gc.{has_blob, is_known, ext_eq}
use vcli.Store.Gc.Integrity.{HasIntegrity}
use vcli.Store.Assets.{put_asset, stored_len}
use vcli.Store.Assets.Upkeep.{put_asset-HasIntegrity, known_still}
use vcli.Daemon.Assets.{MaterializedAssets, Gathered, is_listed, add_asset}

-- Every file has a row.
abbrev pub IsStocked : Store → Type 0
IsStocked s = All (λ b. is_known s.assets b.0 ≡ true) s.blobs

-- The table of programs is `rows`, the store is sound, and the gathered hashes have rows.
pub record IsGathered (rows : List ProgramRow) (g : Gathered) : Type 0 where
  pub programs : g.0.programs ≡ rows
  pub integrity : HasIntegrity g.0
  pub stocked : IsStocked g.0
  pub known : All (λ h. is_known g.0.assets h ≡ true) g.1.hashes

pub blob-known :
    (assets : List Asset) (blobs : List (String × Option String)) (h : String) (e : Option String)
    → All (λ b. is_known assets b.0 ≡ true) blobs
    → has_blob blobs h e ≡ true
    → is_known assets h ≡ true
unfolding has_blob
blob-known assets [] h e all x = cc x
blob-known assets (b ∷ blobs) h e all x = elim (Bool-cases (str_eq b.0 h)) [
  | inl same ↦ subst (λ n. is_known assets n ≡ true) ((eq_iff b.0 h).0 same) all.0
  | inr other ↦
      blob-known assets blobs h e all.1
        (subst (λ y. ((y && ext_eq b.1 e) || has_blob blobs h e) ≡ true) other x)
]

pub put_asset-known :
    (of_bytes : List ℕ → String) (s : Store) (bytes : List ℕ) (ext : Option String) (now : ℤ)
    (g : String)
    → is_known s.assets g ≡ true
    → is_known (put_asset of_bytes s bytes ext now).0.assets g ≡ true
unfolding put_asset
put_asset-known of_bytes s bytes ext now g e =
    known_still (is_known s.assets (of_bytes bytes)) s.assets
      (record {
        hash = of_bytes bytes;
        byte_len = stored_len (length bytes);
        extension = ext;
        added_at = now;
      })
      g e

pub put_asset-IsStocked :
    (of_bytes : List ℕ → String) (s : Store) (bytes : List ℕ) (ext : Option String) (now : ℤ)
    → HasIntegrity s
    → IsStocked s
    → IsStocked (put_asset of_bytes s bytes ext now).0
unfolding put_asset
put_asset-IsStocked of_bytes s bytes ext now sound h =
    let t = (put_asset of_bytes s bytes ext now).0 in
    let old : All (λ b. is_known t.assets b.0 ≡ true) s.blobs =
      All-map s.blobs (λ b k. put_asset-known of_bytes s bytes ext now b.0 k) h in
    elim (Bool-cases (has_blob s.blobs (of_bytes bytes) ext)) [
      | inl there ↦ rw there old
      | inr fresh ↦ rw fresh (
          All-append (λ b. is_known t.assets b.0 ≡ true) s.blobs ((of_bytes bytes, ext) ∷ []) old
            ((put_asset-HasIntegrity of_bytes s bytes ext now sound).1, tt))
    ]

-- A hash that is added to those of a store that knows it.
pub add_asset-known :
    (assets : List Asset) (h : String) (bytes : List ℕ) (out : MaterializedAssets)
    → is_known assets h ≡ true
    → All (λ g. is_known assets g ≡ true) out.hashes
    → All (λ g. is_known assets g ≡ true) (add_asset h bytes out).hashes
unfolding add_asset
add_asset-known assets h bytes out here all = elim (Bool-cases (is_listed out.hashes h)) [
  | inl listed ↦ rw listed all
  | inr fresh ↦
      rw fresh (All-append (λ g. is_known assets g ≡ true) out.hashes (h ∷ []) all (here, tt))
]
