-- ===== src/Runtime/Scheduler/Tracked/Phases.antt =====
-- Each loop of a tick keeps the table and the log in agreement.
use vcli.Prelude.{
  ℕ, ◌≡◌, refl, inl, inr, Bool, true, false, ◌&&◌, Option, none, some, List, [], ◌∷◌, arith,
  Bool-cases, Option-cases, get_elem?, get, get-adjust, Result, ok, err, ℤ,
}
use vcli.Core.State.{running, completed, failed, state_eq}
use vcli.Core.Predicate.{Frame}
use vcli.Core.Program.{ProgramId}
use vcli.Core.Event.{program_state_changed}
use vcli.Runtime.Error.{RuntimeError}
use vcli.Runtime.Program.{body_complete, RunningProgram}
use vcli.Runtime.World.{Env}
use vcli.Runtime.Arbiter.{Decision}
use vcli.Runtime.Body.{StepOutcome}
use vcli.Runtime.Scheduler.State.{Scheduler, report, change, enter, context}
use vcli.Runtime.Scheduler.Watching.{Checks, WatchFire, after_trigger, start_waiting}
use vcli.Runtime.Scheduler.Firing.{
  Fired, fire_directly, after_dispatch, dispatch_winner, defer_loser, carry_out, carry_out_all,
  apply_evals, apply_fires, note_checks, note_fire,
}
use vcli.Runtime.Scheduler.Stepping.{
  no_watches_left, complete, conclude, step_program, step_bodies, advance,
}
use vcli.Runtime.Scheduler.Log.{IsTracked, report-IsTracked, Quiet-IsTracked}
use vcli.Runtime.Scheduler.Quiet.{events-step_once, events-trigger_fires, dispatch_steps-Quiet}
use vcli.Runtime.Scheduler.Tracked.Changes.{
  change-IsTracked, neutral-IsTracked, enter-IsTracked, world-IsTracked, get-change,
}

pub note_fire-state :
    (now : ℤ) (i : ℕ) (rp : RunningProgram) → (note_fire now i rp).state ≡ rp.state
note_fire-state now i rp = elim (Option-cases (get_elem? rp.program.watches i)) [
  | inl e ↦ rw (e, note_fire) refl
  | inr (w, e) ↦ rw (e, note_fire) refl
]

pub apply_evals-IsTracked :
    (es : List (ProgramId × Checks)) (s : Scheduler) → IsTracked s → IsTracked (apply_evals es s)
unfolding apply_evals
apply_evals-IsTracked [] s h = h
apply_evals-IsTracked ((k, c) ∷ rest) s h =
    apply_evals-IsTracked rest _ (change-IsTracked s k (note_checks c) h (λ rp. refl))

pub apply_fires-IsTracked :
    (now : ℤ) (fs : List Fired) (s : Scheduler) → IsTracked s → IsTracked (apply_fires now fs s)
unfolding apply_fires
apply_fires-IsTracked now [] s h = h
apply_fires-IsTracked now (f ∷ rest) s h =
    apply_fires-IsTracked now rest _
      (change-IsTracked s f.program_id (note_fire now f.index) h (note_fire-state now f.index))

module _ (env : Env) where
  pub fire_directly-IsTracked :
      (fs : List (ProgramId × WatchFire)) (s : Scheduler)
      → IsTracked s
      → IsTracked (fire_directly env fs s).1
  unfolding fire_directly
  fire_directly-IsTracked [] s h = h
  fire_directly-IsTracked ((k, f) ∷ rest) s h =
      fire_directly-IsTracked rest _ (neutral-IsTracked env _ s h (λ j x. refl))

  pub complete-IsTracked :
      (k : ProgramId) (rp q : RunningProgram) (s : Scheduler)
      → IsTracked s
      → get k s.programs ≡ some q
      → IsTracked (complete env k rp s)
  unfolding report change
  complete-IsTracked k rp q s h e =
      let t =
        report env (program_state_changed k running completed "body_complete")
          (change k (enter completed) s) in
      report-IsTracked env _ t t (enter-IsTracked env _ s k (enter completed) q h e (λ j x. refl))
        refl (λ j. ground (arith, get-adjust k j (enter completed) s.programs))

  pub conclude-IsTracked :
      (k : ProgramId) (cursor : ℕ) (rp q : RunningProgram) (o : StepOutcome) (s : Scheduler)
      → IsTracked s
      → get k s.programs ≡ some q
      → IsTracked (conclude env k cursor rp o s)
  unfolding conclude
  conclude-IsTracked k cursor rp q StepOutcome.advanced s h e =
      let rp' = advance env cursor rp in
      let moved = change-IsTracked s k (advance env cursor) h (λ p. refl) in
      elim (Bool-cases (body_complete rp' && no_watches_left env rp')) [
        | inl over ↦ rw over (
            complete-IsTracked k rp' (advance env cursor q) _ moved
              (get-change k (advance env cursor) s q e))
        | inr more ↦ rw more moved
      ]
  conclude-IsTracked k cursor rp q StepOutcome.stalled s h e = h
  conclude-IsTracked k cursor rp q StepOutcome.body_done s h e =
      elim (Bool-cases (no_watches_left env rp)) [
        | inl left ↦ rw left (complete-IsTracked k rp q s h e)
        | inr busy ↦ rw busy h
      ]
  conclude-IsTracked k cursor rp q (StepOutcome.failed x) s h e =
      enter-IsTracked env _ s k (enter failed) q h e (λ j x. refl)

module _ (env : Env) (frame : Frame) (now : ℤ) where
  pub after_trigger-IsTracked :
      (k : ProgramId) (rp : RunningProgram) (r : Result RuntimeError Bool) (s : Scheduler)
      → IsTracked s
      → get k s.programs ≡ some rp
      → IsTracked (after_trigger env frame now k r s)
  after_trigger-IsTracked k rp (ok true) s h e = enter-IsTracked env _ s k _ rp h e (λ j x. refl)
  after_trigger-IsTracked k rp (ok false) s h e = h
  after_trigger-IsTracked k rp (err x) s h e =
      enter-IsTracked env _ s k (enter failed) rp h e (λ j x. refl)

  pub start_waiting-IsTracked :
      (ks : List ProgramId) (s : Scheduler)
      → IsTracked s
      → IsTracked (start_waiting env frame now ks s)
  unfolding start_waiting
  start_waiting-IsTracked [] s h = h
  start_waiting-IsTracked (k ∷ ks) s h = elim (Option-cases (get k s.programs)) [
    | inl e ↦ rw e (start_waiting-IsTracked ks s h)
    | inr (rp, e) ↦ rw e (
        start_waiting-IsTracked ks _ (
          after_trigger-IsTracked k rp _ _
            (world-IsTracked s _ h
              (events-trigger_fires env (context frame now k rp) rp.program.trigger s.world))
            e))
  ]

  pub after_dispatch-IsTracked :
      (k : ProgramId) (f : WatchFire) (rp : RunningProgram) (r : Result RuntimeError (Unit {0}))
      (s : Scheduler)
      → IsTracked s
      → get k s.programs ≡ some rp
      → IsTracked (after_dispatch env frame now k f rp r s).1
  after_dispatch-IsTracked k f rp (ok _) s h e = neutral-IsTracked env _ s h (λ j x. refl)
  after_dispatch-IsTracked k f rp (err x) s h e =
      enter-IsTracked env _ s k (enter failed) rp h e (λ j x. refl)

  pub dispatch_winner-IsTracked :
      (k : ProgramId) (f : WatchFire) (s : Scheduler)
      → IsTracked s
      → IsTracked (dispatch_winner env frame now k f (get k s.programs) s).1
  dispatch_winner-IsTracked k f s h = elim (Option-cases (get k s.programs)) [
    | inl e ↦ rw e h
    | inr (rp, e) ↦ rw e (
        after_dispatch-IsTracked k f rp _ _
          (Quiet-IsTracked s _ h
            (dispatch_steps-Quiet env frame now k (context frame now k rp) f.steps s.world)
            (λ j. refl))
          e)
  ]

  pub defer_loser-IsTracked :
      (k : ProgramId) (f : WatchFire) (l : Option ProgramId) (s : Scheduler)
      → IsTracked s
      → IsTracked (defer_loser env frame now k f l s).1
  defer_loser-IsTracked k f none s h = h
  defer_loser-IsTracked k f (some winner) s h = neutral-IsTracked env _ s h (λ j x. refl)

  pub carry_out-IsTracked :
      (d : Decision WatchFire) (s : Scheduler)
      → IsTracked s
      → IsTracked (carry_out env frame now d s).1
  unfolding carry_out
  carry_out-IsTracked d s h = elim (Bool-cases d.dispatch) [
    | inl e ↦ rw (e, carry_out) (dispatch_winner-IsTracked d.program_id d.payload s h)
    | inr e ↦ rw (e, carry_out) (defer_loser-IsTracked d.program_id d.payload d.loser_of s h)
  ]

  pub carry_out_all-IsTracked :
      (ds : List (Decision WatchFire)) (s : Scheduler)
      → IsTracked s
      → IsTracked (carry_out_all env frame now ds s).1
  unfolding carry_out_all
  carry_out_all-IsTracked [] s h = h
  carry_out_all-IsTracked (d ∷ ds) s h = carry_out_all-IsTracked ds _ (carry_out-IsTracked d s h)

  pub step_program-IsTracked :
      (k : ProgramId) (rp : RunningProgram) (s : Scheduler)
      → IsTracked s
      → get k s.programs ≡ some rp
      → IsTracked (step_program env frame now k rp s)
  step_program-IsTracked k rp s h e =
      conclude-IsTracked env k _ _ _ _ _
        (change-IsTracked _ k _
          (world-IsTracked s _ h
            (events-step_once env (context frame now k rp) rp.program.body _ rp.body_state s.world))
          (λ p. refl))
        (get-change k _ _ rp e)

  pub step_bodies-IsTracked :
      (ks : List ProgramId) (s : Scheduler)
      → IsTracked s
      → IsTracked (step_bodies env frame now ks s)
  unfolding step_bodies
  step_bodies-IsTracked [] s h = h
  step_bodies-IsTracked (k ∷ ks) s h = elim (Option-cases (get k s.programs)) [
    | inl e ↦ rw e (step_bodies-IsTracked ks s h)
    | inr (rp, e) ↦ elim (Bool-cases (state_eq rp.state running)) [
      | inl live ↦ rw (e, live) (step_bodies-IsTracked ks _ (step_program-IsTracked k rp s h e))
      | inr idle ↦ rw (e, idle) (step_bodies-IsTracked ks s h)
    ]
  ]
