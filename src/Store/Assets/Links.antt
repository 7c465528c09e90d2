-- ===== src/Store/Assets/Links.antt =====
-- What a link of an asset to a program changes.
use vcli.Prelude.{
  String, ◌≡◌, refl, subst, inl, inr, Bool, true, false, ◌&&◌, ◌||◌, Option, none, some, List, [],
  ◌∷◌, ◌++◌, str_eq, eq_refl, ◌==◌, if◌then◌else◌, ==_refl, Bool-cases, ok, err,
}
use vcli.Core.Program.{ProgramId}
use vcli.Store.Rows.{Store, ProgramRow, find_row, constraint}
use vcli.Store.Assets.{link_program_asset, has_link}

has_link-append :
    (ls ms : List (ProgramId × String)) (k : ProgramId) (h : String)
    → has_link ls k h ≡ true
    → has_link (ls ++ ms) k h ≡ true
unfolding has_link
has_link-append [] ms k h e = cc e
has_link-append (l ∷ ls) ms k h e = elim (Bool-cases (l.0 == k && str_eq l.1 h)) [
  | inl x ↦ rw x refl
  | inr x ↦ rw x (has_link-append ls ms k h (subst (λ b. (b || has_link ls k h) ≡ true) x e))
]

has_link-last :
    (ls : List (ProgramId × String)) (k : ProgramId) (h : String)
    → has_link (ls ++ (k, h) ∷ []) k h ≡ true
unfolding has_link
has_link-last [] k h = rw (==_refl k, eq_refl h) refl
has_link-last (l ∷ ls) k h = elim (Bool-cases (l.0 == k && str_eq l.1 h)) [
  | inl x ↦ rw x refl
  | inr x ↦ rw x (has_link-last ls k h)
]

-- Every link of the first store is one of the second.
abbrev pub KeepsLinks : Store → Store → Type 0
KeepsLinks s t =
    (k : ProgramId) (h : String)
    → has_link s.program_assets k h ≡ true
    → has_link t.program_assets k h ≡ true

pub link_program_asset-links :
    (s t : Store) (k : ProgramId) (h : String)
    → link_program_asset s k h ≡ ok t
    → (has_link t.program_assets k h ≡ true) × KeepsLinks s t
unfolding link_program_asset
link_program_asset-links s t k h e =
    by_link (has_link s.program_assets k h) refl (find_row k s.programs) e
  where
    by_link :
        (b : Bool)
        → has_link s.program_assets k h ≡ b
        → (row : Option ProgramRow)
        → (if b then ok s else elim row [
          | none ↦ err constraint
          | some r ↦ ok (record s { program_assets = s.program_assets ++ (k, h) ∷ [] })
        ])
          ≡ ok t
        → (has_link t.program_assets k h ≡ true) × KeepsLinks s t
    by_link true there row e =
        let same : s ≡ t = cc e in
        subst (λ u. (has_link u.program_assets k h ≡ true) × KeepsLinks s u) same
          (there, λ j g x. x)
    by_link false there none e = cc e
    by_link false there (some r) e =
        let same : record s { program_assets = s.program_assets ++ (k, h) ∷ [] } ≡ t = cc e in
        subst (λ u. (has_link u.program_assets k h ≡ true) × KeepsLinks s u) same
          (
            has_link-last s.program_assets k h,
            λ j g x. has_link-append s.program_assets ((k, h) ∷ []) j g x,
          )

pub link-keeps :
    (s t : Store) (k : ProgramId) (h : String)
    → link_program_asset s k h ≡ ok t
    → (t.programs ≡ s.programs) × (t.assets ≡ s.assets)
unfolding link_program_asset
link-keeps s t k h e = by_link (has_link s.program_assets k h) (find_row k s.programs) e
  where
    by_link :
        (b : Bool) (row : Option ProgramRow)
        → (if b then ok s else elim row [
          | none ↦ err constraint
          | some r ↦ ok (record s { program_assets = s.program_assets ++ (k, h) ∷ [] })
        ])
          ≡ ok t
        → (t.programs ≡ s.programs) × (t.assets ≡ s.assets)
    by_link true row e = (cc e, cc e)
    by_link false none e = cc e
    by_link false (some r) e = (cc e, cc e)
