-- ===== src/Runtime/Scheduler/Lifecycle/Dispatch.antt =====
-- The dispatch of the winners moves only programs that run or failed in this tick.
use vcli.Prelude.{
  ◌≡◌, refl, inl, inr, Option, none, some, List, [], ◌∷◌, map, arith, ◌==◌, Bool-cases,
  Option-cases, All, All-map, Assoc, get, Result, ok, err, ℤ,
}
use vcli.Core.State.{failed}
use vcli.Core.Predicate.{Frame}
use vcli.Core.Program.{ProgramId}
use vcli.Runtime.Program.{RunningProgram}
use vcli.Runtime.World.{Env, World}
use vcli.Runtime.Scheduler.State.{Scheduler, report, enter}
use vcli.Runtime.Scheduler.Watching.{WatchFire, Checks}
use vcli.Runtime.Scheduler.Firing.{
  Offers, evaluate_running, after_dispatch, defer_loser, carry_out, carry_out_all,
}
use vcli.Runtime.Scheduler.Firing.{offer, has_steps}
use vcli.Runtime.Error.{RuntimeError}
use vcli.Runtime.Arbiter.{Candidate, Decision, against, best, resolve}
use vcli.Runtime.Scheduler.Lifecycle.Moves.{
  AllMoved, AllMoved-refl, AllMoved-trans, AllMoved-programs, state_of-change,
}
use vcli.Runtime.Scheduler.Lifecycle.Phases.{Alive, dispatch_winner-AllMoved}

-- The decisions are on the programs of the candidates.
decided_ids :
    (P : ProgramId → Type 0) (w : ProgramId) (cs : List (Candidate WatchFire))
    → All (λ c. P c.program_id) cs
    → All (λ d. P d.program_id) (map (against w) cs)
decided_ids P w [] h = tt
decided_ids P w (c ∷ cs) h = (h.0, decided_ids P w cs h.1)

pub resolve-ids :
    (P : ProgramId → Type 0) (cs : List (Candidate WatchFire))
    → All (λ c. P c.program_id) cs
    → All (λ d. P d.program_id) (resolve cs)
unfolding resolve
resolve-ids P [] h = tt
resolve-ids P (c ∷ []) h = h
resolve-ids P (c ∷ d ∷ rest) h = decided_ids P (best c (d ∷ rest)).program_id (c ∷ d ∷ rest) h

offer-ids :
    (P : ProgramId → Type 0) (k : ProgramId) (p : ℤ) (c : Checks) (fs : List WatchFire) (o : Offers)
    → P k
    → All (λ x. P x.program_id) o.candidates
    → All (λ x. P x.program_id) (offer k p c fs o).candidates
offer-ids P k p c [] o pk h = h
offer-ids P k p c (f ∷ fs) o pk h = elim (Bool-cases (has_steps f)) [
  | inl e ↦ rw e (pk, h)
  | inr e ↦ rw e h
]

module _ (env : Env) (frame : Frame) (now : ℤ) where
  -- Only programs of the list are offered.
  pub offered_ids :
      (P : ProgramId → Type 0) (m : Assoc RunningProgram) (ks : List ProgramId) (w : World)
      → All P ks
      → All (λ c. P c.program_id) (evaluate_running env frame now m ks w).0.candidates
  unfolding evaluate_running
  offered_ids P m [] w h = tt
  offered_ids P m (k ∷ ks) w h = elim (Option-cases (get k m)) [
    | inl e ↦ rw (e, evaluate_running, All) (offered_ids P m ks w h.1)
    | inr (rp, e) ↦
        rw (e, evaluate_running, All)
          (offer-ids P k rp.program.priority _ _ _ h.0 (offered_ids P m ks _ h.1))
  ]

  after_dispatch-Alive :
      (k j : ProgramId) (f : WatchFire) (rp : RunningProgram) (r : Result RuntimeError (Unit {0}))
      (s : Scheduler)
      → get k s.programs ≡ some rp
      → Alive j s
      → Alive j (after_dispatch env frame now k f rp r s).1
  unfolding report
  after_dispatch-Alive k j f rp (ok _) s e h = h
  after_dispatch-Alive k j f rp (err x) s e h = elim (Bool-cases (k == j)) [
    | inl same ↦ inr (ground (arith, state_of-change k j (enter failed) s rp e))
    | inr other ↦ elim h [
      | inl y ↦ inl (ground (arith, state_of-change k j (enter failed) s rp e))
      | inr y ↦ inr (ground (arith, state_of-change k j (enter failed) s rp e))
    ]
  ]

  carry_out-Alive :
      (j : ProgramId) (d : Decision WatchFire) (s : Scheduler)
      → Alive j s
      → Alive j (carry_out env frame now d s).1
  unfolding carry_out report
  carry_out-Alive j d s h = elim (Bool-cases d.dispatch) [
    | inl e ↦ elim (Option-cases (get d.program_id s.programs)) [
      | inl x ↦ rw (e, carry_out, x) h
      | inr (rp, x) ↦
          rw (e, carry_out, x) (after_dispatch-Alive d.program_id j d.payload rp _ _ x h)
    ]
    | inr e ↦ rw (e, carry_out) (deferred d.loser_of)
  ]
    where
      deferred :
          (l : Option ProgramId) → Alive j (defer_loser env frame now d.program_id d.payload l s).1
      deferred none = h
      deferred (some w) = h

  carry_out-AllMoved :
      (d : Decision WatchFire) (s : Scheduler)
      → Alive d.program_id s
      → AllMoved s (carry_out env frame now d s).1
  unfolding carry_out report
  carry_out-AllMoved d s h = elim (Bool-cases d.dispatch) [
    | inl e ↦ rw (e, carry_out) (dispatch_winner-AllMoved env frame now d.program_id d.payload s h)
    | inr e ↦ rw (e, carry_out) (deferred d.loser_of)
  ]
    where
      deferred :
          (l : Option ProgramId)
          → AllMoved s (defer_loser env frame now d.program_id d.payload l s).1
      deferred none = AllMoved-refl s
      deferred (some w) = AllMoved-programs s _ refl

  pub carry_out_all-AllMoved :
      (ds : List (Decision WatchFire)) (s : Scheduler)
      → All (λ d. Alive d.program_id s) ds
      → AllMoved s (carry_out_all env frame now ds s).1
  unfolding carry_out_all
  carry_out_all-AllMoved [] s h = AllMoved-refl s
  carry_out_all-AllMoved (d ∷ ds) s h =
      AllMoved-trans s (carry_out env frame now d s).1 _ (carry_out-AllMoved d s h.0)
        (carry_out_all-AllMoved ds _ (All-map ds (λ x. carry_out-Alive x.program_id d s) h.1))
