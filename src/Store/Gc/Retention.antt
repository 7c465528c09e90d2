-- ===== src/Store/Gc/Retention.antt =====
-- Which rows and files a collection has to keep, told by itself, and that the tests of the code agree.
use vcli.Prelude.{
  String, ◌≡◌, refl, sym, ap, subst, ◌⊎◌, inl, inr, Bool, true, false, not, ◌&&◌, ◌||◌, Option,
  none, some, List, [], ◌∷◌, arith, str_eq, eq_iff, Bool-cases, Option-cases, All, ℤ, ◌≤ℤ◌, ltb_ℤ,
}
use mathlib.Core.List.{Memᴰ}
use vcli.Core.State.{
  ProgramState, pending, waiting, running, blocked, completed, failed, cancelled, is_terminal,
}
use vcli.Core.Program.{ProgramId}
use vcli.Store.Rows.{Store, ProgramRow, Asset, find_row}
use vcli.Store.Gc.{is_kept, has_program, is_linked, is_known, is_orphan, ends_with}

-- The states of a program that has not ended.
abbrev pub Unfinished : ProgramState → Type 0
Unfinished pending = Unit {0}
Unfinished waiting = Unit {0}
Unfinished running = Unit {0}
Unfinished blocked = Unit {0}
Unfinished completed = ⊥
Unfinished failed = ⊥
Unfinished cancelled = ⊥

-- A program that has not ended, whose end has no time, or that ended at the cutoff or later.
pub data IsCurrent (cutoff : ℤ) (r : ProgramRow) : Type 0 where
  unfinished : Unfinished r.state → IsCurrent cutoff r
  untimed : r.finished_at ≡ none → IsCurrent cutoff r
  recent : (t : ℤ) → r.finished_at ≡ some t → cutoff ≤ℤ t → IsCurrent cutoff r

Unfinished-is_terminal : (state : ProgramState) → Unfinished state → is_terminal state ≡ false
Unfinished-is_terminal pending h = refl
Unfinished-is_terminal waiting h = refl
Unfinished-is_terminal running h = refl
Unfinished-is_terminal blocked h = refl
Unfinished-is_terminal completed h = elim h [ ]
Unfinished-is_terminal failed h = elim h [ ]
Unfinished-is_terminal cancelled h = elim h [ ]

is_terminal-cases : (state : ProgramState) → Unfinished state ⊎ (is_terminal state ≡ true)
is_terminal-cases pending = inl tt
is_terminal-cases waiting = inl tt
is_terminal-cases running = inl tt
is_terminal-cases blocked = inl tt
is_terminal-cases completed = inr refl
is_terminal-cases failed = inr refl
is_terminal-cases cancelled = inr refl

pub IsCurrent-is_kept : (cutoff : ℤ) (r : ProgramRow) → IsCurrent cutoff r → is_kept cutoff r ≡ true
IsCurrent-is_kept cutoff r (unfinished h) = rw (Unfinished-is_terminal r.state h) refl
IsCurrent-is_kept cutoff r (untimed e) = elim (Bool-cases (is_terminal r.state)) [
  | inl x ↦ rw (x, e) refl
  | inr x ↦ rw x refl
]
IsCurrent-is_kept cutoff r (recent t e late) =
    let not_before : ltb_ℤ t cutoff ≡ false = ground (arith, late) in
    elim (Bool-cases (is_terminal r.state)) [
      | inl x ↦ rw (x, e, not_before) refl
      | inr x ↦ rw x refl
    ]

pub is_kept-IsCurrent : (cutoff : ℤ) (r : ProgramRow) → is_kept cutoff r ≡ true → IsCurrent cutoff r
is_kept-IsCurrent cutoff r h = elim (is_terminal-cases r.state) [
  | inl x ↦ unfinished x
  | inr x ↦
      by_end r.finished_at refl (subst (λ b. not (b && ended_before r.finished_at) ≡ true) x h)
]
  where
    ended_before : Option ℤ → Bool
    ended_before o = elim o [ none ↦ false | some t ↦ ltb_ℤ t cutoff ]

    by_end :
        (o : Option ℤ)
        → r.finished_at ≡ o
        → not (true && ended_before o) ≡ true
        → IsCurrent cutoff r
    by_end none e g = untimed e
    by_end (some t) e g = recent t e (ground (arith, g))

-- A link names the asset, and the program of the link has a row.
abbrev pub IsInUse : Store → String → Type 0
IsInUse s h =
    (k : ProgramId) × Memᴰ (k, h) s.program_assets
    × (r : ProgramRow) × (find_row k s.programs ≡ some r)

-- Some row has the stem of the file as its hash, or the stem ends in "tmp".
abbrev pub IsAccounted : List Asset → String × Option String → Type 0
IsAccounted assets (stem, ext) =
    ((a : Asset) × Memᴰ a assets × (a.hash ≡ stem)) ⊎ (ends_with stem "tmp" ≡ true)

-- Nothing is left to collect, for a collection with this cutoff.
pub record IsClean (cutoff : ℤ) (s : Store) : Type 0 where
  pub current : All (IsCurrent cutoff) s.programs
  pub in_use : All (λ a. IsInUse s a.hash) s.assets
  pub accounted : All (IsAccounted s.assets) s.blobs

pub has_program-row :
    (rows : List ProgramRow) (k : ProgramId)
    → has_program rows k ≡ true
    → (r : ProgramRow) × (find_row k rows ≡ some r)
has_program-row rows k h = elim (Option-cases (find_row k rows)) [
  | inl e ↦ cc (h, e)
  | inr (r, e) ↦ (r, e)
]

pub is_linked-Memᴰ :
    (ls : List (ProgramId × String)) (h : String)
    → is_linked ls h ≡ true
    → (k : ProgramId) × Memᴰ (k, h) ls
unfolding is_linked
is_linked-Memᴰ [] h e = cc e
is_linked-Memᴰ ((k, g) ∷ ls) h e = elim (Bool-cases (str_eq g h)) [
  | inl x ↦ (k, Memᴰ.head (ap (λ y. (k, y)) (sym ((eq_iff g h).0 x))))
  | inr x ↦
      let (j, m) = is_linked-Memᴰ ls h (subst (λ b. (b || is_linked ls h) ≡ true) x e) in
      (j, Memᴰ.tail m)
]

pub is_known-Memᴰ :
    (assets : List Asset) (h : String)
    → is_known assets h ≡ true
    → (a : Asset) × Memᴰ a assets × (a.hash ≡ h)
unfolding is_known
is_known-Memᴰ [] h e = cc e
is_known-Memᴰ (a ∷ assets) h e = elim (Bool-cases (str_eq a.hash h)) [
  | inl x ↦ (a, Memᴰ.head refl, (eq_iff a.hash h).0 x)
  | inr x ↦
      let (b, m, same) =
        is_known-Memᴰ assets h (subst (λ t. (t || is_known assets h) ≡ true) x e) in
      (b, Memᴰ.tail m, same)
]

pub is_orphan-IsAccounted :
    (assets : List Asset) (b : String × Option String)
    → is_orphan assets b ≡ false
    → IsAccounted assets b
is_orphan-IsAccounted assets (stem, ext) e = elim (Bool-cases (is_known assets stem)) [
  | inl x ↦ inl (is_known-Memᴰ assets stem x)
  | inr x ↦ inr (ground (arith, e, x))
]

-- What holds of every item of a list holds of a member.
pub All-Memᴰ {ℓ κ} :
    {A : Type ℓ} (P : A → Type κ) (xs : List A) (x : A) → All P xs → Memᴰ x xs → P x
All-Memᴰ P [] x h m = elim m [ ]
All-Memᴰ P (y ∷ xs) x h (Memᴰ.head e) = subst P (sym e) h.0
All-Memᴰ P (y ∷ xs) x h (Memᴰ.tail m) = All-Memᴰ P xs x h.1 m
