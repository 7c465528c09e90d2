-- ===== src/Input/KillSwitch/Waiting.antt =====
-- crates/vcli-input/src/kill_switch.rs: the wait for the kill switch ends.
use vcli.Prelude.{
  ℕ, zero, suc, ◌+◌, ◌≤◌, ◌<◌, ◌≡◌, refl, sym, subst, inl, inr, Bool, true, false, Option, some,
  arith, leb, ◌==◌, ==_iff, Bool-cases,
}
use vcli.Input.KillSwitch.{wait_until_engaged}

-- The wait that starts in round `i` ends in round `j`: it answers what the flag is there, the flag
-- was not set in a round before, and where it is not set the deadline is over.
pub record StopsAt (engaged : ℕ → Bool) (now : ℕ → ℕ) (deadline i j : ℕ) : Type 0 where
  pub later : i ≤ j
  pub before : (k : ℕ) → i ≤ k → k < j → engaged k ≡ false
  pub over : engaged j ≡ false → deadline ≤ now j

module _ (engaged : ℕ → Bool) (now : ℕ → ℕ) (deadline : ℕ) where
  Stops : ℕ → Option Bool → Type 0
  Stops i answer = (j : ℕ) × (answer ≡ some (engaged j)) × StopsAt engaged now deadline i j

  at_once : (i : ℕ) → (engaged i ≡ false → deadline ≤ now i) → StopsAt engaged now deadline i i
  at_once i over = record {
    later = omega arith;
    before = λ k le lt. absurd (omega arith);
    over = over;
  }

  one_more :
      (i j : ℕ)
      → engaged i ≡ false
      → StopsAt engaged now deadline (suc i) j
      → StopsAt engaged now deadline i j
  one_more i j unset stops = record {
    later = omega (arith, stops.later);
    before = λ k le lt. elim (Bool-cases (k == i)) [
      | inl e ↦ subst (λ n. engaged n ≡ false) (sym ((==_iff k i).0 e)) unset
      | inr e ↦ stops.before k (ground arith) lt
    ];
    over = stops.over;
  }

  wait-answers :
      (fuel i : ℕ)
      → ((k : ℕ) → now k < now (suc k))
      → deadline ≤ now i + fuel
      → Stops i (wait_until_engaged engaged now deadline (suc fuel) i)
  unfolding wait_until_engaged Stops
  wait-answers zero i ticks h = elim (Bool-cases (engaged i)) [
    | inl set ↦ (i, rw set refl, at_once i (λ e. absurd (cc (set, e))))
    | inr unset ↦ (i, rw (unset, late) refl, at_once i (λ e. omega arith))
  ]
    where
      late : leb deadline (now i) ≡ true
      late = ground arith
  wait-answers (suc fuel) i ticks h = elim (Bool-cases (engaged i)) [
    | inl set ↦ (i, rw set refl, at_once i (λ e. absurd (cc (set, e))))
    | inr unset ↦ elim (Bool-cases (leb deadline (now i))) [
      | inl late ↦ (i, rw (unset, late) refl, at_once i (λ e. ground arith))
      | inr early ↦
          let (j, e, stops) = wait-answers fuel (suc i) ticks (omega (arith, ticks i)) in
          (j, rw (unset, early) e, one_more i j unset stops)
    ]
  ]

  -- The wait for the kill switch always ends, where the clock goes on from round to round: one
  -- round more than the deadline is enough. It answers what the flag is in the round in which it
  -- ends; the flag was not set in any round before, and it gives up only after the deadline.
  pub wait-ends :
      ((k : ℕ) → now k < now (suc k))
      → (j : ℕ) × (wait_until_engaged engaged now deadline (suc deadline) 0 ≡ some (engaged j))
        × StopsAt engaged now deadline 0 j
  unfolding Stops
  wait-ends ticks = wait-answers deadline 0 ticks (omega arith)
