-- ===== src/Runtime/Arbiter/Ranking.antt =====
-- The winner of the arbitration ranks above every candidate, and it alone dispatches.
use vcli.Prelude.{
  ℕ, ◌≤◌, ◌≡◌, ◌↔◌, inl, inr, Bool, true, false, none, some, List, [], ◌∷◌, map, arith, ◌==◌,
  if◌then◌else◌, Bool-cases, length, get_elem?, All, ◌≤ℤ◌,
}
use vcli.Runtime.Arbiter.{Candidate, Decision, ranks_below, best}

module _ {ℓ} {T : Type ℓ} where
  -- The order of the arbiter, told by itself: the priority, then the id.
  pub record RanksAbove (w c : Candidate T) : Type 0 where
    pub priority : c.priority ≤ℤ w.priority
    pub program_id : w.priority ≤ℤ c.priority → c.program_id ≤ w.program_id

  RanksAbove-refl : (c : Candidate T) → RanksAbove c c
  RanksAbove-refl c = record { priority = omega arith; program_id = λ h. omega arith }

  RanksAbove-trans : (w v c : Candidate T) → RanksAbove w v → RanksAbove v c → RanksAbove w c
  RanksAbove-trans w v c p q = record {
    priority = omega (arith, p.priority, q.priority);
    program_id = λ h. omega (
      arith,
      p.program_id (omega (arith, h, p.priority, q.priority)),
      q.program_id (omega (arith, h, p.priority, q.priority)),
    );
  }

  ranks_below-RanksAbove : (a b : Candidate T) → ranks_below a b ≡ true → RanksAbove b a
  ranks_below-RanksAbove a b h = record { priority = ground arith; program_id = λ g. ground arith }

  ranks_below-other : (a b : Candidate T) → ranks_below a b ≡ false → RanksAbove a b
  ranks_below-other a b h = record { priority = ground arith; program_id = λ g. ground arith }

  better-RanksAbove :
      (a b : Candidate T)
      → RanksAbove (if ranks_below a b then b else a) a
        × RanksAbove (if ranks_below a b then b else a) b
  better-RanksAbove a b = elim (Bool-cases (ranks_below a b)) [
    | inl e ↦ rw e (ranks_below-RanksAbove a b e, RanksAbove-refl b)
    | inr e ↦ rw e (RanksAbove-refl a, ranks_below-other a b e)
  ]

  pub best-RanksAbove :
      (a : Candidate T) (bs : List (Candidate T)) → All (RanksAbove (best a bs)) (a ∷ bs)
  unfolding best
  best-RanksAbove a [] = (RanksAbove-refl a, tt)
  best-RanksAbove a (b ∷ bs) =
      let rest = best-RanksAbove (if ranks_below a b then b else a) bs in
      let (over_a, over_b) = better-RanksAbove a b in
      (RanksAbove-trans _ _ a rest.0 over_a, (RanksAbove-trans _ _ b rest.0 over_b, rest.1))

  abbrev pub ids : List (Candidate T) → List ℕ
  ids cs = map (λ c. c.program_id) cs

  abbrev has_id : ℕ → Candidate T → Bool
  has_id k c = c.program_id == k

  -- What a decision says of its candidate, given the winner.
  pub record IsVerdict (w c : Candidate T) (d : Decision T) : Type 0 where
    pub program_id : d.program_id ≡ c.program_id
    pub wins : (d.dispatch ≡ true) ↔ (c.program_id ≡ w.program_id)
    pub loser_of : d.loser_of ≡ (if d.dispatch then none else some w.program_id)

  -- Each candidate, in order, with a verdict that the one above all of them gives.
  pub record IsResolved (cs : List (Candidate T)) (ds : List (Decision T)) : Type ℓ where
    pub winner : Candidate T
    pub is_candidate : (i : ℕ) × (get_elem? cs i ≡ some winner)
    pub above : All (RanksAbove winner) cs
    pub same_length : length ds ≡ length cs
    pub payloads : map (λ d. d.payload) ds ≡ map (λ c. c.payload) cs
    pub verdicts :
        (i : ℕ) (c : Candidate T) (d : Decision T)
        → get_elem? cs i ≡ some c
        → get_elem? ds i ≡ some d
        → IsVerdict winner c d
