-- ===== src/Daemon/Assets/Gathering.antt =====
-- What the materialization of a program's images keeps, whether it succeeds or not.
use vcli.Prelude.{
  ℕ, String, ◌≡◌, refl, true, Option, none, some, List, [], ◌∷◌, arith, All-map, Dict, Result, ok,
  err, ℤ,
}
use vcli.Core.Predicate.{
  PredicateKind, template, color_at, pixel_diff, all_of, any_of, not_of, elapsed_ms_since_true,
}
use vcli.Core.Program.{WatchWhen, Watch, Program}
use vcli.Core.Program.{inline, by_name}
use vcli.Store.Rows.{Store, ProgramRow}
use vcli.Store.Gc.{has_blob}
use vcli.Store.Gc.Integrity.{HasIntegrity}
use vcli.Store.Assets.{put_asset, get_asset, extension_of}
use vcli.Store.Assets.Upkeep.{put_asset-HasIntegrity}
use vcli.Dsl.Watches.{strip_prefix}
use vcli.Daemon.Assets.{
  Files, AssetMaterializeError, MaterializedAssets, Gathered, Outcome, and_then, add_asset, loaded,
  stored, read_from, resolve_path, by_reference, materialize_image_ref, materialize_predicate,
  materialize_all, materialize_when, materialize_watches, materialize_template_assets,
}
use vcli.Daemon.Assets.Stocked.{
  IsStocked, IsGathered, blob-known, put_asset-known, put_asset-IsStocked, add_asset-known,
}

-- A property of what is gathered that the two ways to add an asset keep.
module _ (files : Files) (base_dir : Option String) (now : ℤ) (P : Gathered → Type 0)
    (stores : (bytes : List ℕ) (ext : Option String) (s : Store) (out : MaterializedAssets)
      → P (s, out)
      → P (
        (put_asset files.of_bytes s bytes ext now).0,
        add_asset (files.of_bytes bytes) bytes out,
      ))
    (loads : (hash : String) (bytes : List ℕ) (s : Store) (out : MaterializedAssets)
      → get_asset files.contents s hash ≡ some bytes
      → P (s, out)
      → P (s, add_asset hash bytes out)) where
  and_then-keeps {ℓ κ} :
      {A : Type ℓ} {B : Type κ} (o : Outcome A) (next : A → Gathered → Outcome B)
      → P o.1
      → ((a : A) (g : Gathered) → P g → P (next a g).1)
      → P (and_then o next).1
  and_then-keeps (ok a, g) next h k = k a g h
  and_then-keeps (err e, g) next h k = h

  stored-keeps :
      (path : String) (r : Result String (List ℕ)) (g : Gathered)
      → P g
      → P (stored files base_dir now path r g).1
  unfolding put_asset
  stored-keeps path (err e) g h = h
  stored-keeps path (ok bytes) (s, out) h = stores bytes (files.extension path) s out h

  loaded-keeps :
      (hash image : String) (g : Gathered)
      → P g
      → P (loaded files base_dir now hash (get_asset files.contents g.0 hash) image g).1
  loaded-keeps hash image (s, out) h = by_file (get_asset files.contents s hash) refl
    where
      by_file :
          (o : Option (List ℕ))
          → get_asset files.contents s hash ≡ o
          → P (loaded files base_dir now hash o image (s, out)).1
      by_file none e = h
      by_file (some bytes) e = loads hash bytes s out e h

  read_from-keeps :
      (r : Result AssetMaterializeError String) (g : Gathered)
      → P g
      → P (read_from files base_dir now r g).1
  read_from-keeps (err e) g h = h
  read_from-keeps (ok path) g h = stored-keeps path (files.read path) g h

  image-keeps :
      (image : String) (g : Gathered) → P g → P (materialize_image_ref files base_dir now image g).1
  unfolding materialize_image_ref
  image-keeps image g h = by_prefix (strip_prefix "sha256:" image)
    where
      by_prefix : (o : Option String) → P (by_reference files base_dir now image o g).1
      by_prefix none = read_from-keeps (resolve_path base_dir image) g h
      by_prefix (some hex) = loaded-keeps hex image g h

  predicate-keeps :
      (p : PredicateKind) (g : Gathered) → P g → P (materialize_predicate files base_dir now p g).1
  unfolding materialize_predicate
  predicate-keeps (template image confidence region throttle) g h =
      and_then-keeps (materialize_image_ref files base_dir now image g) _ (image-keeps image g h)
        (λ a k kept. kept)
  predicate-keeps (color_at point rgb tolerance) g h = h
  predicate-keeps (pixel_diff region baseline threshold) g h = h
  predicate-keeps (all_of names) g h = h
  predicate-keeps (any_of names) g h = h
  predicate-keeps (not_of name) g h = h
  predicate-keeps (elapsed_ms_since_true name ms) g h = h

  all-keeps :
      (m : Dict PredicateKind) (g : Gathered) → P g → P (materialize_all files base_dir now m g).1
  unfolding materialize_all
  all-keeps [] g h = h
  all-keeps ((name, p) ∷ m) g h =
      and_then-keeps (materialize_predicate files base_dir now p g) _ (predicate-keeps p g h)
        (λ q k kept.
          and_then-keeps (materialize_all files base_dir now m k) _ (all-keeps m k kept)
            (λ qs l kept'. kept'))

  when-keeps :
      (when : WatchWhen) (g : Gathered) → P g → P (materialize_when files base_dir now when g).1
  when-keeps (by_name name) g h = h
  when-keeps (inline p) g h =
      and_then-keeps (materialize_predicate files base_dir now p g) _ (predicate-keeps p g h)
        (λ q k kept. kept)

  watches-keeps :
      (ws : List Watch) (g : Gathered) → P g → P (materialize_watches files base_dir now ws g).1
  unfolding materialize_watches
  watches-keeps [] g h = h
  watches-keeps (w ∷ ws) g h =
      and_then-keeps (materialize_when files base_dir now w.when g) _ (when-keeps w.when g h)
        (λ q k kept.
          and_then-keeps (materialize_watches files base_dir now ws k) _ (watches-keeps ws k kept)
            (λ qs l kept'. kept'))

  template_assets-keeps :
      (s : Store) (program : Program)
      → P (s, record { bytes = []; hashes = [] })
      → P (materialize_template_assets files base_dir now s program).1
  unfolding materialize_template_assets
  template_assets-keeps s program begin =
      and_then-keeps (materialize_all files base_dir now program.predicates _) _
        (all-keeps program.predicates _ begin)
        (λ ps g kept.
          and_then-keeps (materialize_watches files base_dir now program.watches g) _
            (watches-keeps program.watches g kept) (λ ws h kept'. kept'))

put_asset-IsGathered :
    {rows : List ProgramRow} (of_bytes : List ℕ → String) (s : Store) (bytes : List ℕ)
    (ext : Option String) (now : ℤ) (out : MaterializedAssets)
    → IsGathered rows (s, out)
    → IsGathered rows ((put_asset of_bytes s bytes ext now).0, add_asset (of_bytes bytes) bytes out)
unfolding put_asset
put_asset-IsGathered of_bytes s bytes ext now out h =
    let kept = put_asset-HasIntegrity of_bytes s bytes ext now h.integrity in
    record {
      programs = h.programs;
      integrity = kept.0;
      stocked = put_asset-IsStocked of_bytes s bytes ext now h.integrity h.stocked;
      known =
          add_asset-known (put_asset of_bytes s bytes ext now).0.assets (of_bytes bytes) bytes out
            kept.1
            (All-map out.hashes (λ g k. put_asset-known of_bytes s bytes ext now g k) h.known);
    }

get_asset-IsGathered :
    {rows : List ProgramRow} (contents : String → List ℕ) (s : Store) (hash : String)
    (bytes : List ℕ) (out : MaterializedAssets)
    → get_asset contents s hash ≡ some bytes
    → IsGathered rows (s, out)
    → IsGathered rows (s, add_asset hash bytes out)
unfolding get_asset
get_asset-IsGathered contents s hash bytes out e h =
    let ext = extension_of s.assets hash in
    let there : has_blob s.blobs hash ext ≡ true = ground arith in
    record {
      programs = h.programs;
      integrity = h.integrity;
      stocked = h.stocked;
      known =
          add_asset-known s.assets hash bytes out
            (blob-known s.assets s.blobs hash ext h.stocked there) h.known;
    }

-- The materialization of a program's images keeps the rows of the programs and the soundness of the
-- store, with an error too, and every hash that it has gathered has a row.
pub materialize-IsGathered :
    (files : Files) (base_dir : Option String) (now : ℤ) (s : Store) (program : Program)
    → HasIntegrity s
    → IsStocked s
    → IsGathered s.programs (materialize_template_assets files base_dir now s program).1
materialize-IsGathered files base_dir now s program sound stocked =
    template_assets-keeps files base_dir now (IsGathered s.programs)
      (λ bytes ext t out h. put_asset-IsGathered files.of_bytes t bytes ext now out h)
      (λ hash bytes t out e h. get_asset-IsGathered files.contents t hash bytes out e h) s program
      (record { programs = refl; integrity = sound; stocked = stocked; known = tt })

-- The rows of the programs stay in any store.
pub materialize-programs :
    (files : Files) (base_dir : Option String) (now : ℤ) (s : Store) (program : Program)
    → (materialize_template_assets files base_dir now s program).1.0.programs ≡ s.programs
unfolding put_asset
materialize-programs files base_dir now s program =
    template_assets-keeps files base_dir now (λ g. g.0.programs ≡ s.programs)
      (λ bytes ext t out h. h) (λ hash bytes t out e h. h) s program refl
