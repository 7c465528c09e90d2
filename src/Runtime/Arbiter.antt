-- ===== src/Runtime/Arbiter.antt =====
-- crates/vcli-runtime/src/arbiter.rs: which of the candidates dispatches. The text of a program id
-- has a fixed width, so the order of the texts is the order of the ids.
use vcli.Prelude.{
  Bool, true, ◌&&◌, ◌||◌, Option, none, some, List, [], ◌∷◌, map, leb, ◌==◌, if◌then◌else◌, ℤ,
  leb_ℤ, ltb_ℤ,
}
use vcli.Core.Program.{ProgramId}
pub mod Ranking

pub record Candidate {ℓ} (T : Type ℓ) : Type ℓ where
  pub program_id : ProgramId
  pub priority : ℤ
  pub payload : T

pub record Decision {ℓ} (T : Type ℓ) : Type ℓ where
  pub program_id : ProgramId
  pub payload : T
  pub dispatch : Bool
  pub loser_of : Option ProgramId

module _ {ℓ} {T : Type ℓ} where
  -- The comparison `a ≤ b` of `max_by`: the priority, then the id.
  abbrev pub ranks_below : Candidate T → Candidate T → Bool
  ranks_below a b =
      ltb_ℤ a.priority b.priority || (leb_ℤ a.priority b.priority && leb a.program_id b.program_id)

  -- `max_by` from a first element; the last of equals is kept.
  unfoldable pub best : Candidate T → List (Candidate T) → Candidate T
  best a [] = a
  best a (b ∷ bs) = best (if ranks_below a b then b else a) bs

  abbrev pub alone : Candidate T → Decision T
  alone c = record {
    program_id = c.program_id;
    payload = c.payload;
    dispatch = true;
    loser_of = none;
  }

  abbrev pub against : ProgramId → Candidate T → Decision T
  against winner c =
      let is_winner = c.program_id == winner in
      record {
        program_id = c.program_id;
        payload = c.payload;
        dispatch = is_winner;
        loser_of = if is_winner then none else some winner;
      }

  unfoldable pub resolve : List (Candidate T) → List (Decision T)
  unfolding best
  resolve [] = []
  resolve (c ∷ []) = alone c ∷ []
  resolve (c ∷ d ∷ rest) = map (against (best c (d ∷ rest)).program_id) (c ∷ d ∷ rest)
