-- ===== src/Runtime/Scheduler/Lifecycle/Keys.antt =====
-- The table is a map: its keys are distinct, and every operation keeps them so.
use vcli.Prelude.{
  ℕ, ◌≡◌, refl, ap, ◌∙◌, inl, inr, Bool, true, false, some, [], ◌∷◌, ◌==◌, if◌then◌else◌, ==_iff,
  ==_refl, Bool-cases, keep, All, All-map₂, Assoc, get, put, keys, Distinct,
}
use vcli.Core.State.{ProgramState, state_eq, state_eq→eq}
use vcli.Runtime.Program.{RunningProgram}
use vcli.Runtime.Scheduler.State.{ids_in}
use vcli.Runtime.Scheduler.Log.{state_in}

-- What a filter of the entries leaves of the keys.
module _ {ℓ} {V : Type ℓ} (p : ℕ × V → Bool) where
  keep-All : (P : ℕ → Type 0) (m : Assoc V) → All P (keys m) → All P (keys (keep p m))
  keep-All P [] h = tt
  keep-All P ((k, v) ∷ m) h = elim (Bool-cases (p (k, v))) [
    | inl e ↦ rw e (h.0, keep-All P m h.1)
    | inr e ↦ rw e (keep-All P m h.1)
  ]

  keep-Distinct : (m : Assoc V) → Distinct (keys m) → Distinct (keys (keep p m))
  keep-Distinct [] h = tt
  keep-Distinct ((k, v) ∷ m) h = elim (Bool-cases (p (k, v))) [
    | inl e ↦ rw e (keep-All _ m h.0, keep-Distinct m h.1)
    | inr e ↦ rw e (keep-Distinct m h.1)
  ]

module _ {ℓ} {V : Type ℓ} (k : ℕ) (v : V) where
  put-All : (P : ℕ → Type 0) (m : Assoc V) → P k → All P (keys m) → All P (keys (put k v m))
  unfolding put
  put-All P [] pk h = (pk, tt)
  put-All P ((j, w) ∷ m) pk h = elim (Bool-cases (j == k)) [
    | inl e ↦ rw e (pk, h.1)
    | inr e ↦ rw e (h.0, put-All P m pk h.1)
  ]

  pub put-Distinct : (m : Assoc V) → Distinct (keys m) → Distinct (keys (put k v m))
  unfolding put
  put-Distinct [] h = (tt, tt)
  put-Distinct ((j, w) ∷ m) h = elim (Bool-cases (j == k)) [
    | inl e ↦ rw e (rw (← (==_iff j k).0 e) h.0, h.1)
    | inr e ↦ rw e (put-All _ m e h.0, put-Distinct m h.1)
  ]

-- The ids of the programs in one state are distinct, and each program is in that state.
pub ids_in-Distinct :
    (st : ProgramState) (m : Assoc RunningProgram) → Distinct (keys m) → Distinct (ids_in st m)
ids_in-Distinct st m h = keep-Distinct _ m h

ids_in-head :
    (st : ProgramState) (k : ℕ) (v : RunningProgram) (m : Assoc RunningProgram) (j : ℕ)
    → state_in (get j m) ≡ some st
    → (k == j) ≡ false
    → state_in (get j ((k, v) ∷ m)) ≡ some st
unfolding get
ids_in-head st k v m j h e = rw e h

get-head : (k : ℕ) (v : RunningProgram) (m : Assoc RunningProgram) → get k ((k, v) ∷ m) ≡ some v
unfolding get
get-head k v m = rw (==_refl k) refl

-- The entry in front is kept where its program is in the state.
in_front :
    (st : ProgramState) (k : ℕ) (v : RunningProgram) (m : Assoc RunningProgram) (P : ℕ → Type 0)
    (b : Bool)
    → state_eq v.state st ≡ b
    → (if b then P k × All P (ids_in st m) else All P (ids_in st m))
    → All P (ids_in st ((k, v) ∷ m))
in_front st k v m P true e h = rw e h
in_front st k v m P false e h = rw e h

pub ids_in-state :
    (st : ProgramState) (m : Assoc RunningProgram)
    → Distinct (keys m)
    → All (λ j. state_in (get j m) ≡ some st) (ids_in st m)
ids_in-state st [] h = tt
ids_in-state st ((k, v) ∷ m) h =
    let rest =
      All-map₂ (ids_in st m) (ids_in-head st k v m) (ids_in-state st m h.1)
        (keep-All (λ e. state_eq e.1.state st) _ m h.0) in
    elim (Bool-cases (state_eq v.state st)) [
      | inl e ↦
          in_front st k v m _ true e
            (ap state_in (get-head k v m) ∙ ap some (state_eq→eq v.state st e), rest)
      | inr e ↦ in_front st k v m _ false e rest
    ]
