-- ===== src/Runtime/Scheduler/Lifecycle/Phases.antt =====
-- Each loop of a tick moves every program as it may.
use vcli.Prelude.{
  ℕ, ◌≡◌, refl, ◌⊎◌, inl, inr, true, ◌&&◌, some, List, [], ◌∷◌, arith, Bool-cases, Option-cases,
  get, get-adjust, Result, ok, err, ℤ,
}
use vcli.Core.State.{running, completed, failed, state_eq, state_eq→eq}
use vcli.Core.Predicate.{Frame}
use vcli.Core.Program.{ProgramId}
use vcli.Runtime.Program.{RunningProgram, body_complete}
use vcli.Runtime.World.{Env}
use vcli.Runtime.Scheduler.State.{Scheduler, report, change, enter, context}
use vcli.Runtime.Scheduler.Watching.{WatchFire, Checks}
use vcli.Runtime.Scheduler.Firing.{
  dispatch_steps, Fired, fire_directly, after_dispatch, dispatch_winner, note_checks, apply_evals,
  note_fire, apply_fires,
}
use vcli.Runtime.Scheduler.Stepping.{
  no_watches_left, advance, conclude, with_deferral, step_program, step_bodies, or_zero,
}
use vcli.Runtime.Scheduler.Log.{state_of}
use vcli.Runtime.Scheduler.Tracked.Changes.{state_in-map, get-change}
use vcli.Runtime.Scheduler.Tracked.Phases.{note_fire-state}
use vcli.Runtime.Scheduler.Lifecycle.Moves.{
  may_move, AllMoved, AllMoved-refl, AllMoved-trans, Moved-same, entered-AllMoved, held_state,
  AllMoved-programs,
}
use vcli.Runtime.Error.{RuntimeError}
use vcli.Runtime.Body.{StepOutcome, step_once}

neutral-AllMoved :
    (s : Scheduler) (k : ProgramId) (f : RunningProgram → RunningProgram)
    → ((rp : RunningProgram) → (f rp).state ≡ rp.state)
    → AllMoved s (change k f s)
unfolding change
neutral-AllMoved s k f same = record {
  at_id = λ j.
      Moved-same
        (ground (arith, get-adjust k j f s.programs, state_in-map f (get j s.programs) same));
}

pub apply_evals-AllMoved :
    (es : List (ProgramId × Checks)) (s : Scheduler) → AllMoved s (apply_evals es s)
unfolding apply_evals
apply_evals-AllMoved [] s = AllMoved-refl s
apply_evals-AllMoved ((k, c) ∷ rest) s =
    AllMoved-trans s (change k (note_checks c) s) _
      (neutral-AllMoved s k (note_checks c) (λ rp. refl))
      (apply_evals-AllMoved rest (change k (note_checks c) s))

pub apply_fires-AllMoved :
    (now : ℤ) (fs : List Fired) (s : Scheduler) → AllMoved s (apply_fires now fs s)
unfolding apply_fires
apply_fires-AllMoved now [] s = AllMoved-refl s
apply_fires-AllMoved now (f ∷ rest) s =
    let noted = note_fire now f.index in
    AllMoved-trans s (change f.program_id noted s) _
      (neutral-AllMoved s f.program_id noted (note_fire-state now f.index))
      (apply_fires-AllMoved now rest (change f.program_id noted s))

-- A program that runs, or whose dispatch failed in this tick.
abbrev pub Alive : ProgramId → Scheduler → Type 0
Alive k s = (state_of k s ≡ some running) ⊎ (state_of k s ≡ some failed)

module _ (env : Env) where
  pub fire_directly-programs :
      (fs : List (ProgramId × WatchFire)) (s : Scheduler)
      → (fire_directly env fs s).1.programs ≡ s.programs
  unfolding fire_directly report
  fire_directly-programs [] s = refl
  fire_directly-programs ((k, f) ∷ rest) s = fire_directly-programs rest _

  conclude-AllMoved :
      (k : ProgramId) (cursor : ℕ) (rp q : RunningProgram) (o : StepOutcome) (s : Scheduler)
      → get k s.programs ≡ some q
      → q.state ≡ running
      → AllMoved s (conclude env k cursor rp o s)
  unfolding conclude report
  conclude-AllMoved k cursor rp q StepOutcome.advanced s e live =
      let rp' = advance env cursor rp in
      let moved = neutral-AllMoved s k (advance env cursor) (λ p. refl) in
      elim (Bool-cases (body_complete rp' && no_watches_left env rp')) [
        | inl over ↦ rw over (
            AllMoved-trans s (change k (advance env cursor) s) _ moved (
              entered-AllMoved k (enter completed) (change k (advance env cursor) s) _ _
                (get-change k (advance env cursor) s q e) (rw live refl) refl))
        | inr more ↦ rw more moved
      ]
  conclude-AllMoved k cursor rp q StepOutcome.stalled s e live = AllMoved-refl s
  conclude-AllMoved k cursor rp q StepOutcome.body_done s e live =
      elim (Bool-cases (no_watches_left env rp)) [
        | inl left ↦ rw left (entered-AllMoved k (enter completed) s _ q e (rw live refl) refl)
        | inr busy ↦ rw busy (AllMoved-refl s)
      ]
  conclude-AllMoved k cursor rp q (StepOutcome.failed x) s e live =
      entered-AllMoved k (enter failed) s _ q e (rw live refl) refl

module _ (env : Env) (frame : Frame) (now : ℤ) where
  pub step_bodies-AllMoved :
      (ks : List ProgramId) (s : Scheduler) → AllMoved s (step_bodies env frame now ks s)
  unfolding step_bodies
  step_bodies-AllMoved [] s = AllMoved-refl s
  step_bodies-AllMoved (k ∷ ks) s = elim (Option-cases (get k s.programs)) [
    | inl e ↦ rw e (step_bodies-AllMoved ks s)
    | inr (rp, e) ↦ elim (Bool-cases (state_eq rp.state running)) [
      | inl live ↦
          rw (e, live)
            (AllMoved-trans s (step_program env frame now k rp s) _
              (stepped k rp s e (state_eq→eq rp.state running live))
              (step_bodies-AllMoved ks (step_program env frame now k rp s)))
      | inr idle ↦ rw (e, idle) (step_bodies-AllMoved ks s)
    ]
  ]
    where
      stepped :
          (k : ProgramId) (rp : RunningProgram) (s : Scheduler)
          → get k s.programs ≡ some rp
          → rp.state ≡ running
          → AllMoved s (step_program env frame now k rp s)
      stepped k rp s e live =
          let (o, d, w) =
            step_once env (context frame now k rp) rp.program.body (or_zero rp.body_cursor)
              rp.body_state s.world in
          let deferred = with_deferral d in
          let s' = record s { world = w } in
          AllMoved-trans s s' _ (AllMoved-programs s s' refl) (
            AllMoved-trans s' (change k deferred s') _ (neutral-AllMoved s' k deferred (λ p. refl))
              (conclude-AllMoved env k _ _ _ o (change k deferred s')
                (get-change k deferred s' rp e) live))

  pub dispatch_winner-AllMoved :
      (k : ProgramId) (f : WatchFire) (s : Scheduler)
      → Alive k s
      → AllMoved s (dispatch_winner env frame now k f (get k s.programs) s).1
  unfolding report
  dispatch_winner-AllMoved k f s alive = elim (Option-cases (get k s.programs)) [
    | inl e ↦ rw e (AllMoved-refl s)
    | inr (rp, e) ↦ rw e (
        dispatched rp e (dispatch_steps env frame now k (context frame now k rp) f.steps s.world).0
          (record s {
            world = (dispatch_steps env frame now k (context frame now k rp) f.steps s.world).1;
          })
          e refl)
  ]
    where
      may_fail :
          (rp : RunningProgram) → get k s.programs ≡ some rp → may_move rp.state failed ≡ true
      may_fail rp e = elim alive [
        | inl x ↦ rw (held_state k s rp _ e x) refl
        | inr x ↦ rw (held_state k s rp _ e x) refl
      ]

      dispatched :
          (rp : RunningProgram)
          → get k s.programs ≡ some rp
          → (r : Result RuntimeError (Unit {0})) (t : Scheduler) → get k t.programs ≡ some rp
          → t.programs ≡ s.programs
          → AllMoved s (after_dispatch env frame now k f rp r t).1
      dispatched rp e (ok _) t e' same = AllMoved-programs s _ same
      dispatched rp e (err x) t e' same =
          AllMoved-trans s t _ (AllMoved-programs s t same)
            (entered-AllMoved k (enter failed) t _ rp e' (may_fail rp e) refl)
