-- ===== src/Store/Gc/Collection.antt =====
-- The whole collection: what it keeps, and what it leaves.
use vcli.Prelude.{
  String, ◌≡◌, refl, sym, ap, subst, inl, inr, Bool, true, false, not, Option, some, List, [], ◌∷◌,
  arith, str_eq, eq_iff, ◌==◌, if◌then◌else◌, ==_iff, ==_refl, Bool-cases, keep, All, All-map,
  All-map₂, All-keep, keep-passes, ℤ,
}
use vcli.Core.Program.{ProgramId}
use vcli.Store.Rows.{Store, ProgramRow, Asset, find_row}
use mathlib.Core.Option.{some-injective}
use mathlib.Core.List.{Memᴰ}
use vcli.Store.Gc.{
  is_kept, has_program, has_blob, is_known, gc_programs, is_linked, gc_assets, is_orphan,
  gc_orphan_blobs, gc_all,
}
use vcli.Store.Gc.Retention.{
  IsCurrent, IsCurrent-is_kept, is_kept-IsCurrent, IsClean, has_program-row, is_linked-Memᴰ,
  is_orphan-IsAccounted, All-Memᴰ,
}
use vcli.Store.Gc.Integrity.{
  HasIntegrity, gc_programs-HasIntegrity, links-linked, known_if_linked, removed-has_blob,
  known_file, assets-known,
}

-- An asset that no link names has another hash than one that a link names.
apart_hashes :
    (s : Store) (h : String)
    → is_linked s.program_assets h ≡ true
    → All
        (λ a. str_eq a.hash h ≡ false)
        (keep (λ a. not (is_linked s.program_assets a.hash)) s.assets)
apart_hashes s h linked =
    All-map (keep (λ a. not (is_linked s.program_assets a.hash)) s.assets)
      (λ a out. elim (Bool-cases (str_eq a.hash h)) [
        | inl same ↦
            cc
              (linked, out, ap (λ x. not (is_linked s.program_assets x)) ((eq_iff a.hash h).0 same))
        | inr other ↦ other
      ])
      (keep-passes (λ a. not (is_linked s.program_assets a.hash)) s.assets)

gc_assets-HasIntegrity : (s : Store) → HasIntegrity s → HasIntegrity (gc_assets s).0
unfolding gc_assets
gc_assets-HasIntegrity s h =
    let linked = keep (λ a. is_linked s.program_assets a.hash) s.assets in
    let unlinked = keep (λ a. not (is_linked s.program_assets a.hash)) s.assets in
    record {
      events = h.events;
      links =
          All-map₂ s.program_assets
            (λ l x y. (x.0, known_if_linked (is_linked s.program_assets) s.assets l.1 x.1 y))
            h.links (links-linked s.program_assets);
      files =
          All-map₂ linked
            (λ a here yes_linked.
              removed-has_blob unlinked s.blobs a.hash a.extension
                (apart_hashes s a.hash yes_linked) here)
            (All-keep _ (λ a. is_linked s.program_assets a.hash) s.assets h.files)
            (keep-passes (λ a. is_linked s.program_assets a.hash) s.assets);
    }

gc_orphan_blobs-HasIntegrity : (s : Store) → HasIntegrity s → HasIntegrity (gc_orphan_blobs s).0
unfolding gc_orphan_blobs
gc_orphan_blobs-HasIntegrity s h = record {
  events = h.events;
  links = h.links;
  files =
      All-map₂ s.assets (λ a here known. known_file s.assets s.blobs a.hash a.extension known here)
        h.files (assets-known s.assets);
}

-- A collection keeps the integrity of the store: every event and link still names a program of
-- the store, every link an asset, and every asset that is left has its file.
pub gc_all-HasIntegrity :
    (s : Store) (cutoff : ℤ) → HasIntegrity s → HasIntegrity (gc_all s cutoff).0
unfolding gc_all
gc_all-HasIntegrity s cutoff h =
    gc_orphan_blobs-HasIntegrity _ (gc_assets-HasIntegrity _ (gc_programs-HasIntegrity s cutoff h))

-- After a collection nothing is left to collect: every program has not ended, or its end has no
-- time, or it ended at the cutoff or later; every asset is linked to a program that has a row; and
-- the stem of every file is the hash of an asset, or ends in "tmp".
pub gc_all-IsClean : (s : Store) (cutoff : ℤ) → IsClean cutoff (gc_all s cutoff).0
unfolding gc_all gc_programs gc_assets gc_orphan_blobs
gc_all-IsClean s cutoff =
    let s1 = (gc_programs s cutoff).0 in
    let s2 = (gc_assets s1).0 in
    let kept_links = keep-passes (λ l. has_program s1.programs l.0) s.program_assets in
    record {
      current =
          All-map (keep (is_kept cutoff) s.programs) (is_kept-IsCurrent cutoff)
            (keep-passes (is_kept cutoff) s.programs);
      in_use =
          All-map (keep (λ a. is_linked s1.program_assets a.hash) s.assets)
            (λ a linked.
              let (k, m) = is_linked-Memᴰ s1.program_assets a.hash linked in
              let (r, found) = has_program-row s1.programs k (
                All-Memᴰ (λ l. has_program s1.programs l.0 ≡ true) s1.program_assets _ kept_links
                  m) in
              (k, m, r, found))
            (keep-passes (λ a. is_linked s1.program_assets a.hash) s.assets);
      accounted =
          All-map (keep (λ b. not (is_orphan s2.assets b)) s2.blobs)
            (λ b e. is_orphan-IsAccounted s2.assets b (ground (arith, e)))
            (keep-passes (λ b. not (is_orphan s2.assets b)) s2.blobs);
    }

kept_row :
    (p : ProgramRow → Bool) (k : ProgramId) (rows : List ProgramRow) (r : ProgramRow)
    → find_row k rows ≡ some r
    → p r ≡ true
    → find_row k (keep p rows) ≡ some r
unfolding find_row
kept_row p k [] r e pass = e
kept_row p k (q ∷ rows) r e pass = elim (Bool-cases (q.id == k)) [
  | inl same ↦
      let at : q ≡ r =
        some-injective q r (subst (λ b. (if b then some q else find_row k rows) ≡ some r) same e) in
      let passes : p q ≡ true = subst (λ x. p x ≡ true) (sym at) pass in
      rw (passes, same) (ap some at)
  | inr other ↦
      let rest =
        kept_row p k rows r (subst (λ b. (if b then some q else find_row k rows) ≡ some r) other e)
          pass in
      elim (Bool-cases (p q)) [ inl x ↦ rw (x, other) rest | inr x ↦ rw x rest ]
]

-- What a filter takes out of a list matters not to a narrower one.
keep-keep {ℓ} :
    {A : Type ℓ} (p q : A → Bool) (xs : List A)
    → ((x : A) → p x ≡ true → q x ≡ true)
    → keep p (keep q xs) ≡ keep p xs
keep-keep p q [] within = refl
keep-keep p q (x ∷ xs) within = elim (Bool-cases (p x)) [
  | inl e ↦ rw (within x e, e) (ap (λ ys. x ∷ ys) (keep-keep p q xs within))
  | inr e ↦ elim (Bool-cases (q x)) [
    | inl g ↦ rw (g, e) (keep-keep p q xs within)
    | inr g ↦ rw (g, e) (keep-keep p q xs within)
  ]
]

Memᴰ-keep {ℓ} :
    {A : Type ℓ} (p : A → Bool) (xs : List A) (x : A) → Memᴰ x xs → p x ≡ true → Memᴰ x (keep p xs)
Memᴰ-keep p [] x m e = elim m [ ]
Memᴰ-keep p (y ∷ xs) x (Memᴰ.head same) e = rw (subst (λ z. p z ≡ true) same e) (Memᴰ.head same)
Memᴰ-keep p (y ∷ xs) x (Memᴰ.tail m) e = elim (Bool-cases (p y)) [
  | inl g ↦ rw g (Memᴰ.tail (Memᴰ-keep p xs x m e))
  | inr g ↦ rw g (Memᴰ-keep p xs x m e)
]

Memᴰ-is_linked :
    (ls : List (ProgramId × String)) (k : ProgramId) (h : String)
    → Memᴰ (k, h) ls
    → is_linked ls h ≡ true
Memᴰ-is_linked ls k h m = All-Memᴰ (λ l. is_linked ls l.1 ≡ true) ls (k, h) (links-linked ls) m

has_program-at :
    (rows : List ProgramRow) (k j : ProgramId) (r : ProgramRow)
    → find_row k rows ≡ some r
    → (j == k) ≡ true
    → has_program rows j ≡ true
has_program-at rows k j r e same =
    subst (λ i. has_program rows i ≡ true) (sym ((==_iff j k).0 same)) (rw (has_program, e) refl)

-- What the second store still has of the program `k` of the first one.
pub record KeepsProgram (k : ProgramId) (r : ProgramRow) (s t : Store) : Type 0 where
  pub program : find_row k t.programs ≡ some r
  pub events : keep (λ e. e.program_id == k) t.events ≡ keep (λ e. e.program_id == k) s.events
  pub links : keep (λ l. l.0 == k) t.program_assets ≡ keep (λ l. l.0 == k) s.program_assets
  pub assets : (a : Asset) → Memᴰ (k, a.hash) s.program_assets → Memᴰ a s.assets → Memᴰ a t.assets
  pub files :
      (h : String) (ext : Option String)
      → Memᴰ (k, h) s.program_assets
      → is_known s.assets h ≡ true
      → has_blob s.blobs h ext ≡ true
      → has_blob t.blobs h ext ≡ true

-- A collection keeps all of a program that has not ended, whose end has no time, or that ended at
-- the cutoff or later: its row as it was, its events and links in their order, and for each asset
-- that is linked to it the row and the files.
pub gc_all-keeps :
    (s : Store) (cutoff : ℤ) (k : ProgramId) (r : ProgramRow)
    → find_row k s.programs ≡ some r
    → IsCurrent cutoff r
    → KeepsProgram k r s (gc_all s cutoff).0
unfolding gc_all gc_programs gc_assets gc_orphan_blobs
gc_all-keeps s cutoff k r e current =
    let rows = keep (is_kept cutoff) s.programs in
    let there = kept_row (is_kept cutoff) k s.programs r e (IsCurrent-is_kept cutoff r current) in
    let s1 = (gc_programs s cutoff).0 in
    let linked : (h : String)
        → Memᴰ (k, h) s.program_assets
        → is_linked s1.program_assets h ≡ true =
      (λ h m. Memᴰ-is_linked s1.program_assets k h (
        Memᴰ-keep (λ l. has_program rows l.0) s.program_assets (k, h) m
          (has_program-at rows k k r there (==_refl k)))) in
    record {
      program = there;
      events =
          keep-keep _ (λ e. has_program rows e.program_id) s.events
            (λ x. has_program-at rows k x.program_id r there);
      links =
          keep-keep _ (λ l. has_program rows l.0) s.program_assets
            (λ x. has_program-at rows k x.0 r there);
      assets = λ a m here.
          Memᴰ-keep (λ b. is_linked s1.program_assets b.hash) s.assets a here (linked a.hash m);
      files = λ h ext m known here.
          known_file _ _ h ext
            (known_if_linked (is_linked s1.program_assets) s.assets h known (linked h m))
            (removed-has_blob _ s.blobs h ext (apart_hashes s1 h (linked h m)) here);
    }
