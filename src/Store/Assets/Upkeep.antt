-- ===== src/Store/Assets/Upkeep.antt =====
-- What storing and linking an asset leave.
use vcli.Prelude.{
  ℕ, String, ◌≡◌, refl, subst, inl, inr, Bool, true, false, ◌&&◌, ◌||◌, Option, none, some, List,
  [], ◌∷◌, ◌++◌, arith, str_eq, eq_refl, if◌then◌else◌, ==_refl, Bool-cases, Option-cases, length,
  All, All-append, All-map, ok, ℤ,
}
use vcli.Core.Program.{ProgramId}
use vcli.Store.Rows.{Store, Asset, find_row}
use vcli.Store.Gc.{has_blob, is_known, ext_eq, has_program}
use vcli.Store.Gc.Integrity.{HasIntegrity}
use vcli.Store.Assets.{put_asset, has_link, link_program_asset, stored_len}

ext_eq_self : (e : Option String) → ext_eq e e ≡ true
ext_eq_self none = refl
ext_eq_self (some e) = eq_refl e

-- More files: those that were there still are, and the new one is.
has_blob-append :
    (bs cs : List (String × Option String)) (h : String) (e : Option String)
    → has_blob bs h e ≡ true
    → has_blob (bs ++ cs) h e ≡ true
unfolding has_blob
has_blob-append [] cs h e x = cc x
has_blob-append (b ∷ bs) cs h e x = elim (Bool-cases (str_eq b.0 h && ext_eq b.1 e)) [
  | inl same ↦ rw same refl
  | inr other ↦
      rw other (has_blob-append bs cs h e (subst (λ y. (y || has_blob bs h e) ≡ true) other x))
]

has_blob-last :
    (bs : List (String × Option String)) (h : String) (e : Option String)
    → has_blob (bs ++ (h, e) ∷ []) h e ≡ true
unfolding has_blob
has_blob-last [] h e = rw (eq_refl h, ext_eq_self e) refl
has_blob-last (b ∷ bs) h e = rw (has_blob-last bs h e) ground arith

pub is_known-append :
    (xs cs : List Asset) (h : String) → is_known xs h ≡ true → is_known (xs ++ cs) h ≡ true
unfolding is_known
is_known-append [] cs h x = cc x
is_known-append (a ∷ xs) cs h x = elim (Bool-cases (str_eq a.hash h)) [
  | inl same ↦ rw same refl
  | inr other ↦
      rw other (is_known-append xs cs h (subst (λ y. (y || is_known xs h) ≡ true) other x))
]

is_known-last : (xs : List Asset) (a : Asset) → is_known (xs ++ a ∷ []) a.hash ≡ true
unfolding is_known
is_known-last [] a = rw (eq_refl a.hash) refl
is_known-last (b ∷ xs) a = rw (is_known-last xs a) ground arith

files_after :
    (bs : List (String × Option String)) (h : String) (e : Option String) (xs : List Asset)
    (a : Asset) (same_hash : a.hash ≡ h) (same_extension : a.extension ≡ e)
    → All (λ x. has_blob bs x.hash x.extension ≡ true) xs
    → (there known : Bool) → has_blob bs h e ≡ there
    → let blobs = if there then bs else bs ++ (h, e) ∷ [] in
      (All (λ x. has_blob blobs x.hash x.extension ≡ true) (if known then xs else xs ++ a ∷ []))
      × (has_blob blobs h e ≡ true)
files_after bs h e xs a sh se all true true x = (all, x)
files_after bs h e xs a sh se all true false x =
    (All-append _ xs (a ∷ []) all (rw (sh, se) x, tt), x)
files_after bs h e xs a sh se all false true x = (
  All-map xs (λ y. has_blob-append bs ((h, e) ∷ []) y.hash y.extension) all,
  has_blob-last bs h e,
)
files_after bs h e xs a sh se all false false x = (
  All-append _ xs (a ∷ [])
      (All-map xs (λ y. has_blob-append bs ((h, e) ∷ []) y.hash y.extension) all)
      (rw (sh, se) (has_blob-last bs h e), tt),
  has_blob-last bs h e,
)

pub known_still :
    (known : Bool) (xs : List Asset) (a : Asset) (g : String)
    → is_known xs g ≡ true
    → is_known (if known then xs else xs ++ a ∷ []) g ≡ true
known_still true xs a g e = e
known_still false xs a g e = is_known-append xs (a ∷ []) g e

pub known_after :
    (known : Bool) (xs : List Asset) (a : Asset)
    → is_known xs a.hash ≡ known
    → is_known (if known then xs else xs ++ a ∷ []) a.hash ≡ true
known_after true xs a e = e
known_after false xs a e = is_known-last xs a

module _ (of_bytes : List ℕ → String) (s : Store) (bytes : List ℕ) (extension : Option String)
    (now_ms : ℤ) where
  -- Storing an asset in a store with integrity keeps the integrity, and the asset that it answers is known
  -- and has a file of that extension.
  pub put_asset-HasIntegrity :
      HasIntegrity s
      → let (t, hash, created) = put_asset of_bytes s bytes extension now_ms in
        HasIntegrity t × (is_known t.assets hash ≡ true) × (has_blob t.blobs hash extension ≡ true)
  unfolding put_asset
  put_asset-HasIntegrity h =
      let hash = of_bytes bytes in
      let row : Asset = record {
        hash = hash;
        byte_len = stored_len (length bytes);
        extension = extension;
        added_at = now_ms;
      } in
      let files =
        files_after s.blobs hash extension s.assets row refl refl h.files
          (has_blob s.blobs hash extension) (is_known s.assets hash) refl in
      let known = is_known s.assets hash in
      (
        record {
          events = h.events;
          links =
              All-map s.program_assets (λ l x. (x.0, known_still known s.assets row l.1 x.1))
                h.links;
          files = files.0;
        },
        known_after known s.assets row refl,
        files.1,
      )

has_link-last :
    (ls : List (ProgramId × String)) (k : ProgramId) (h : String)
    → has_link (ls ++ (k, h) ∷ []) k h ≡ true
unfolding has_link
has_link-last [] k h = rw (==_refl k, eq_refl h) refl
has_link-last (l ∷ ls) k h = rw (has_link-last ls k h) ground arith

-- In a store with integrity, a program that is there can be linked to an asset that is known: the
-- link is there then, and the store keeps its integrity.
pub link_program_asset-HasIntegrity :
    (s : Store) (k : ProgramId) (hash : String)
    → HasIntegrity s
    → has_program s.programs k ≡ true
    → is_known s.assets hash ≡ true
    → (t : Store) × (link_program_asset s k hash ≡ ok t)
      × (has_link t.program_assets k hash ≡ true)
      × HasIntegrity t
unfolding link_program_asset
link_program_asset-HasIntegrity s k hash h here known =
    elim (Bool-cases (has_link s.program_assets k hash)) [
      | inl there ↦ (s, rw there refl, there, h)
      | inr fresh ↦ elim (Option-cases (find_row k s.programs)) [
        | inl missing ↦ absurd (cc (missing, here))
        | inr (r, found) ↦ (
          record s { program_assets = s.program_assets ++ (k, hash) ∷ [] },
          rw (fresh, found) refl,
          has_link-last s.program_assets k hash,
          record {
            events = h.events;
            links = All-append _ s.program_assets ((k, hash) ∷ []) h.links ((here, known), tt);
            files = h.files;
          },
        )
      ]
    ]
