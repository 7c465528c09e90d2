-- ===== src/Runtime/Scheduler/Lifecycle/Starting.antt =====
-- The start of the waiting programs, each of which is tried once.
use vcli.Prelude.{
  ◌≡◌, refl, ◌∙◌, inl, inr, Bool, true, false, some, List, [], ◌∷◌, arith, ◌==◌, Option-cases, All,
  All-map₂, get, Result, ok, err, ℤ, keys, keys-adjust, Distinct,
}
use vcli.Core.State.{waiting, failed}
use vcli.Core.Predicate.{Frame}
use vcli.Core.Program.{ProgramId}
use vcli.Runtime.Program.{RunningProgram}
use vcli.Runtime.World.{Env}
use vcli.Runtime.Scheduler.State.{Scheduler, report, enter, context, change}
use vcli.Runtime.Scheduler.Watching.{triggered, after_trigger, start_waiting}
use vcli.Runtime.Scheduler.Log.{state_of}
use vcli.Runtime.Error.{RuntimeError}
use vcli.Runtime.Body.{trigger_fires}
use vcli.Runtime.Scheduler.Lifecycle.Moves.{
  AllMoved, AllMoved-refl, AllMoved-trans, AllMoved-programs, entered-AllMoved, held_state,
  state_of-change,
}

module _ (env : Env) (frame : Frame) (now : ℤ) where
  after_trigger-AllMoved :
      (k : ProgramId) (rp : RunningProgram) (r : Result RuntimeError Bool) (s : Scheduler)
      → get k s.programs ≡ some rp
      → rp.state ≡ waiting
      → AllMoved s (after_trigger env frame now k r s)
  unfolding report
  after_trigger-AllMoved k rp (ok true) s e at =
      entered-AllMoved k (triggered env frame now) s _ rp e (rw at refl) refl
  after_trigger-AllMoved k rp (ok false) s e at = AllMoved-refl s
  after_trigger-AllMoved k rp (err x) s e at =
      entered-AllMoved k (enter failed) s _ rp e (rw at refl) refl

  -- A trigger changes only its own program.
  after_trigger-others :
      (k j : ProgramId) (rp : RunningProgram) (r : Result RuntimeError Bool) (s : Scheduler)
      → get k s.programs ≡ some rp
      → (k == j) ≡ false
      → state_of j (after_trigger env frame now k r s) ≡ state_of j s
  unfolding report
  after_trigger-others k j rp (ok true) s e other =
      ground (arith, state_of-change k j (triggered env frame now) s rp e)
  after_trigger-others k j rp (ok false) s e other = refl
  after_trigger-others k j rp (err x) s e other =
      ground (arith, state_of-change k j (enter failed) s rp e)

  pub start_waiting-AllMoved :
      (ks : List ProgramId) (s : Scheduler)
      → Distinct ks
      → All (λ j. state_of j s ≡ some waiting) ks
      → AllMoved s (start_waiting env frame now ks s)
  unfolding start_waiting
  start_waiting-AllMoved [] s d h = AllMoved-refl s
  start_waiting-AllMoved (k ∷ ks) s d h = elim (Option-cases (get k s.programs)) [
    | inl e ↦ rw e (start_waiting-AllMoved ks s d.1 h.1)
    | inr (rp, e) ↦
        let (r, w) = trigger_fires env (context frame now k rp) rp.program.trigger s.world in
        let t = record s { world = w } in
        let u = after_trigger env frame now k r t in
        rw e (
          AllMoved-trans s u _
            (AllMoved-trans s t u (AllMoved-programs s t refl)
              (after_trigger-AllMoved k rp r t e (held_state k s rp waiting e h.0)))
            (start_waiting-AllMoved ks u d.1
              (All-map₂ ks (λ j at other. after_trigger-others k j rp r t e other ∙ at) h.1 d.0)))
  ]

  -- No program is added, and none removed.
  after_trigger-keys :
      (k : ProgramId) (r : Result RuntimeError Bool) (s : Scheduler)
      → keys (after_trigger env frame now k r s).programs ≡ keys s.programs
  unfolding report change
  after_trigger-keys k (ok true) s = keys-adjust k _ s.programs
  after_trigger-keys k (ok false) s = refl
  after_trigger-keys k (err x) s = keys-adjust k _ s.programs

  pub start_waiting-keys :
      (ks : List ProgramId) (s : Scheduler)
      → keys (start_waiting env frame now ks s).programs ≡ keys s.programs
  unfolding start_waiting
  start_waiting-keys [] s = refl
  start_waiting-keys (k ∷ ks) s = elim (Option-cases (get k s.programs)) [
    | inl e ↦ rw (e, keys) (start_waiting-keys ks s)
    | inr (rp, e) ↦ rw (e, keys) (start_waiting-keys ks _ ∙ after_trigger-keys k _ _)
  ]
