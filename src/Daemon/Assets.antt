-- ===== src/Daemon/Assets.antt =====
-- crates/vcli-daemon/src/assets.rs: the images of a program go to the store, and the program refers
-- to them by their hashes.
use Prim.Native.Char.{code}
use vcli.Prelude.{
  ℕ, String, str_append, Bool, true, false, ◌||◌, Option, none, some, List, [], ◌∷◌, ◌++◌, str_eq,
  ◌==◌, if◌then◌else◌, Dict, lookup, insert, Result, ok, err, ℤ,
}
use vcli.Core.Predicate.{PredicateKind, template}
use vcli.Core.Program.{WatchWhen, Watch, Program}
use vcli.Core.Program.{inline, by_name}
use vcli.Store.Rows.{Store}
use vcli.Store.Assets.{put_asset, get_asset}
use vcli.Dsl.Watches.{strip_prefix}
pub mod Stocked
pub mod Gathering

-- What the daemon is given from outside: the digest of bytes, the bytes of a digest, the reads of
-- files (with the text of an error) and the lower-case extension of a path.
pub record Files : Type 0 where
  pub of_bytes : List ℕ → String
  pub contents : String → List ℕ
  pub read : String → Result String (List ℕ)
  pub extension : String → Option String

pub data AssetMaterializeError : Type 0 where
  missing_base_dir : String → AssetMaterializeError
  io : String → String → AssetMaterializeError
  unknown_asset : String → AssetMaterializeError

-- `bytes` in the order of its first insertions.
pub record MaterializedAssets : Type 0 where
  pub bytes : Dict (List ℕ)
  pub hashes : List String

abbrev pub is_listed : List String → String → Bool
is_listed [] h = false
is_listed (g ∷ gs) h = str_eq g h || is_listed gs h

-- `entry(…).or_insert(bytes)`
abbrev pub or_insert : String → List ℕ → Dict (List ℕ) → Dict (List ℕ)
or_insert h bytes m = elim (lookup h m) [ none ↦ insert h bytes m | some old ↦ m ]

unfoldable pub add_asset : String → List ℕ → MaterializedAssets → MaterializedAssets
add_asset h bytes out = record {
  bytes = or_insert h bytes out.bytes;
  hashes = if is_listed out.hashes h then out.hashes else out.hashes ++ h ∷ [];
}

abbrev pub is_absolute : String → Bool
is_absolute String.[] = false
is_absolute (String.◌∷◌ c s) = code c == b'/'

-- `base_dir.join(path)`, of a path that is not absolute.
abbrev pub ends_with_slash : String → Bool
ends_with_slash String.[] = true
ends_with_slash (String.◌∷◌ c String.[]) = code c == b'/'
ends_with_slash (String.◌∷◌ c (String.◌∷◌ d s)) = ends_with_slash (String.◌∷◌ d s)

abbrev pub join : String → String → String
join base path =
    if ends_with_slash base then str_append base path else str_append base (str_append "/" path)

abbrev pub resolve_path : Option String → String → Result AssetMaterializeError String
resolve_path base_dir asset =
    if is_absolute asset
    then ok asset
    else elim base_dir [ none ↦ err (missing_base_dir asset) | some base ↦ ok (join base asset) ]

-- The state of a materialization: the store and what has been gathered. An error keeps the store.
abbrev pub Gathered : Type 0
Gathered = Store × MaterializedAssets

abbrev pub Outcome {ℓ} : Type ℓ → Type ℓ
Outcome A = Result AssetMaterializeError A × Gathered

-- `?` on an outcome.
abbrev pub and_then {ℓ κ} :
    {A : Type ℓ} {B : Type κ} → Outcome A → (A → Gathered → Outcome B) → Outcome B
and_then (ok a, g) next = next a g
and_then (err e, g) next = (err e, g)

module _ (files : Files) (base_dir : Option String) (now_ms : ℤ) where
  abbrev pub loaded : String → Option (List ℕ) → String → Gathered → Outcome String
  loaded hash none image g = (err (unknown_asset hash), g)
  loaded hash (some bytes) image (s, out) = (ok image, (s, add_asset hash bytes out))

  abbrev pub stored : String → Result String (List ℕ) → Gathered → Outcome String
  stored path (err e) g = (err (io path e), g)
  stored path (ok bytes) (s, out) =
      let (t, hash, created) = put_asset files.of_bytes s bytes (files.extension path) now_ms in
      (ok (str_append "sha256:" hash), (t, add_asset hash bytes out))

  abbrev pub read_from : Result AssetMaterializeError String → Gathered → Outcome String
  read_from (err e) g = (err e, g)
  read_from (ok path) g = stored path (files.read path) g

  abbrev pub by_reference : String → Option String → Gathered → Outcome String
  by_reference image none g = read_from (resolve_path base_dir image) g
  by_reference image (some hex) g = loaded hex (get_asset files.contents g.0 hex) image g

  -- The reference that stands for the image from now on.
  unfoldable pub materialize_image_ref : String → Gathered → Outcome String
  materialize_image_ref image g = by_reference image (strip_prefix "sha256:" image) g

  unfoldable pub materialize_predicate : PredicateKind → Gathered → Outcome PredicateKind
  unfolding materialize_image_ref
  materialize_predicate (template image confidence region throttle_ms) g =
      and_then (materialize_image_ref image g)
        (λ i h. (ok (template i confidence region throttle_ms), h))
  materialize_predicate p g = (ok p, g)

  unfoldable pub materialize_all : Dict PredicateKind → Gathered → Outcome (Dict PredicateKind)
  unfolding materialize_predicate
  materialize_all [] g = (ok [], g)
  materialize_all ((name, p) ∷ rest) g =
      and_then (materialize_predicate p g)
        (λ q h. and_then (materialize_all rest h) (λ qs k. (ok ((name, q) ∷ qs), k)))

  abbrev pub materialize_when : WatchWhen → Gathered → Outcome WatchWhen
  materialize_when (by_name name) g = (ok (by_name name), g)
  materialize_when (inline p) g = and_then (materialize_predicate p g) (λ q h. (ok (inline q), h))

  unfoldable pub materialize_watches : List Watch → Gathered → Outcome (List Watch)
  unfolding materialize_predicate
  materialize_watches [] g = (ok [], g)
  materialize_watches (w ∷ ws) g = and_then (materialize_when w.when g) (λ when h.
      and_then (materialize_watches ws h) (λ vs k. (ok (record w { when = when } ∷ vs), k)))

  unfoldable pub materialize_template_assets : Store → Program → Outcome Program
  unfolding materialize_all materialize_watches
  materialize_template_assets s program =
      and_then (materialize_all program.predicates (s, record { bytes = []; hashes = [] })) (λ ps g.
        and_then (materialize_watches program.watches g)
          (λ ws h. (ok (record program { predicates = ps; watches = ws }), h)))
