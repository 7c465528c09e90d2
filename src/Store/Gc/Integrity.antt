-- ===== src/Store/Gc/Integrity.antt =====
-- Rows refer to rows and files that are there, and the steps of a collection that keep it so.
use vcli.Prelude.{
  String, ◌≡◌, refl, sym, subst, inl, inr, Bool, true, false, not, ◌&&◌, ◌||◌, Option, List, [],
  ◌∷◌, arith, str_eq, eq_iff, eq_refl, Bool-cases, keep, All, All-map, All-map₂, All-keep,
  keep-passes, ℤ,
}
use vcli.Core.Program.{ProgramId}
use vcli.Store.Rows.{Store, Asset}
use vcli.Store.Gc.{
  is_kept, has_program, gc_programs, is_linked, has_blob, ext_eq, is_other_blob, remove_blobs,
  is_known, is_orphan,
}

pub record HasIntegrity (s : Store) : Type 0 where
  pub events : All (λ e. has_program s.programs e.program_id ≡ true) s.events
  pub links :
      All
        (λ l. (has_program s.programs l.0 ≡ true) × (is_known s.assets l.1 ≡ true))
        s.program_assets
  pub files : All (λ a. has_blob s.blobs a.hash a.extension ≡ true) s.assets

pub gc_programs-HasIntegrity :
    (s : Store) (cutoff : ℤ) → HasIntegrity s → HasIntegrity (gc_programs s cutoff).0
unfolding gc_programs
gc_programs-HasIntegrity s cutoff h =
    let rows = keep (is_kept cutoff) s.programs in
    record {
      events = keep-passes (λ e. has_program rows e.program_id) s.events;
      links =
          All-map₂ (keep (λ l. has_program rows l.0) s.program_assets) (λ l here x. (here, x.1))
            (keep-passes (λ l. has_program rows l.0) s.program_assets)
            (All-keep _ (λ l. has_program rows l.0) s.program_assets h.links);
      files = h.files;
    }

-- The links of a list are links.
pub links-linked : (ls : List (ProgramId × String)) → All (λ l. is_linked ls l.1 ≡ true) ls
unfolding is_linked
links-linked [] = tt
links-linked (l ∷ ls) = (
  rw (eq_refl l.1) refl,
  All-map ls
      (λ x e. elim (Bool-cases (str_eq l.1 x.1)) [
        | inl same ↦ rw same refl
        | inr other ↦ rw other e
      ])
      (links-linked ls),
)

-- An asset that is linked is still known when the unlinked ones are gone.
pub known_if_linked :
    (p : String → Bool) (assets : List Asset) (h : String)
    → is_known assets h ≡ true
    → p h ≡ true
    → is_known (keep (λ a. p a.hash) assets) h ≡ true
unfolding is_known
known_if_linked p [] h e pass = e
known_if_linked p (a ∷ assets) h e pass = elim (Bool-cases (str_eq a.hash h)) [
  | inl same ↦
      let passes : p a.hash ≡ true =
        subst (λ x. p x ≡ true) (sym ((eq_iff a.hash h).0 same)) pass in
      rw (passes, same) refl
  | inr other ↦
      let rest =
        known_if_linked p assets h (subst (λ b. (b || is_known assets h) ≡ true) other e) pass in
      elim (Bool-cases (p a.hash)) [ inl x ↦ rw (x, other) rest | inr x ↦ rw x rest ]
]

str_eq-apart : (c g h : String) → str_eq g h ≡ false → str_eq c h ≡ true → str_eq c g ≡ false
str_eq-apart c g h n m = elim (Bool-cases (str_eq c g)) [
  | inl e ↦ cc (n, m, (eq_iff c g).0 e)
  | inr e ↦ e
]

and_left : (a b : Bool) → (a && b) ≡ true → a ≡ true
and_left a b e = ground arith

-- The file of an asset survives the removal of files of other hashes.
kept_file :
    (g : String) (x : Option String) (bs : List (String × Option String)) (h : String)
    (e : Option String)
    → str_eq g h ≡ false
    → has_blob bs h e ≡ true
    → has_blob (keep (is_other_blob g x) bs) h e ≡ true
unfolding has_blob
kept_file g x [] h e apart here = here
kept_file g x ((c, d) ∷ bs) h e apart here = elim (Bool-cases (str_eq c h && ext_eq d e)) [
  | inl match ↦
      let other : str_eq c g ≡ false = str_eq-apart c g h apart (and_left _ _ match) in
      rw (other, match) refl
  | inr miss ↦
      let rest =
        kept_file g x bs h e apart (subst (λ b. (b || has_blob bs h e) ≡ true) miss here) in
      elim (Bool-cases (is_other_blob g x (c, d))) [ inl k ↦ rw (k, miss) rest | inr k ↦ rw k rest ]
]

pub removed-has_blob :
    (gone : List Asset) (bs : List (String × Option String)) (h : String) (e : Option String)
    → All (λ a. str_eq a.hash h ≡ false) gone
    → has_blob bs h e ≡ true
    → has_blob (remove_blobs gone bs).0 h e ≡ true
unfolding remove_blobs
removed-has_blob [] bs h e apart here = here
removed-has_blob (a ∷ rest) bs h e apart here = elim (Bool-cases (has_blob bs a.hash a.extension)) [
  | inl x ↦
      rw (x, remove_blobs)
        (removed-has_blob rest _ h e apart.1 (kept_file a.hash a.extension bs h e apart.0 here))
  | inr x ↦ rw (x, remove_blobs) (removed-has_blob rest bs h e apart.1 here)
]

-- The file of a known hash is no orphan.
pub known_file :
    (assets : List Asset) (bs : List (String × Option String)) (h : String) (e : Option String)
    → is_known assets h ≡ true
    → has_blob bs h e ≡ true
    → has_blob (keep (λ b. not (is_orphan assets b)) bs) h e ≡ true
unfolding has_blob
known_file assets [] h e known here = here
known_file assets ((c, d) ∷ bs) h e known here = elim (Bool-cases (str_eq c h && ext_eq d e)) [
  | inl match ↦
      let at : is_known assets c ≡ true =
        subst (λ x. is_known assets x ≡ true) (sym ((eq_iff c h).0 (and_left _ _ match))) known in
      rw (at, match) refl
  | inr miss ↦
      let rest =
        known_file assets bs h e known (subst (λ b. (b || has_blob bs h e) ≡ true) miss here) in
      elim (Bool-cases (is_orphan assets (c, d))) [ inl k ↦ rw k rest | inr k ↦ rw (k, miss) rest ]
]

-- An asset of a list is known by it.
pub assets-known : (assets : List Asset) → All (λ a. is_known assets a.hash ≡ true) assets
unfolding is_known
assets-known [] = tt
assets-known (a ∷ rest) = (
  rw (eq_refl a.hash) refl,
  All-map rest
      (λ x e. elim (Bool-cases (str_eq a.hash x.hash)) [
        | inl same ↦ rw same refl
        | inr other ↦ rw other e
      ])
      (assets-known rest),
)
