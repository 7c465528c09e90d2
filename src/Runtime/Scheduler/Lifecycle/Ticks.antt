-- ===== src/Runtime/Scheduler/Lifecycle/Ticks.antt =====
-- What a whole tick does to the states of the programs.
use vcli.Prelude.{
  refl, sym, ap, subst, ◌∙◌, inl, Option, none, some, ◌++◌, All-map, get, keys, ℤ, ◌≡◌, true, List,
  [], ◌∷◌, map, Distinct,
}
use vcli.Core.State.{waiting, running, ProgramState, is_terminal}
use vcli.Core.Predicate.{Frame}
use vcli.Core.Program.{ProgramId}
use vcli.Runtime.World.{Env}
use vcli.Runtime.Scheduler.State.{Scheduler, report, ids_in}
use vcli.Runtime.Scheduler.Watching.{start_waiting}
use vcli.Runtime.Scheduler.Firing.{
  evaluate_running, fire_directly, carry_out_all, apply_evals, apply_fires,
}
use vcli.Runtime.Scheduler.Tick.{open_tick, tick_frame, tick_once, run_until_shutdown}
use vcli.Runtime.Scheduler.Log.{state_in, state_of}
use vcli.Runtime.Scheduler.Commands.{drain_commands}
use vcli.Runtime.Program.{SchedulerCommand}
use vcli.Runtime.Arbiter.{resolve}
use vcli.Runtime.Scheduler.Lifecycle.Moves.{
  Moved-final, AllMoved, AllMoved-refl, AllMoved-trans, AllMoved-programs,
}
use vcli.Runtime.Scheduler.Lifecycle.Tables.{tick_once-keys, run-Distinct}
use vcli.Runtime.Scheduler.Lifecycle.Phases.{
  Alive, apply_evals-AllMoved, apply_fires-AllMoved, step_bodies-AllMoved, fire_directly-programs,
}
use vcli.Runtime.Scheduler.Lifecycle.Dispatch.{resolve-ids, offered_ids, carry_out_all-AllMoved}
use vcli.Runtime.Scheduler.Lifecycle.Starting.{start_waiting-AllMoved, start_waiting-keys}
use vcli.Runtime.Scheduler.Lifecycle.Keys.{ids_in-Distinct, ids_in-state}

module _ (env : Env) where
  tick_frame-AllMoved :
      (frame : Frame) (now : ℤ) (s : Scheduler)
      → Distinct (keys s.programs)
      → AllMoved s (tick_frame env frame now s)
  unfolding tick_frame
  tick_frame-AllMoved frame now s h =
      let waiting_ids = ids_in waiting s.programs in
      let s1 = start_waiting env frame now waiting_ids s in
      let distinct = subst Distinct (sym (start_waiting-keys env frame now waiting_ids s)) h in
      let ids = ids_in running s1.programs in
      let (offers, w) = evaluate_running env frame now s1.programs ids s1.world in
      let s1' = record s1 { world = w } in
      let (direct, s2) = fire_directly env offers.direct_fires s1' in
      let (chosen, s3) = carry_out_all env frame now (resolve offers.candidates) s2 in
      let s3' = apply_evals offers.evals s3 in
      let s4 = apply_fires now (direct ++ chosen) s3' in
      let table = fire_directly-programs env offers.direct_fires s1' in
      let live =
        All-map ids (λ j at. inl (ap (λ m. state_in (get j m)) table ∙ at))
          (ids_in-state running s1.programs distinct) in
      AllMoved-trans s s1 _
        (start_waiting-AllMoved env frame now waiting_ids s (ids_in-Distinct waiting s.programs h)
          (ids_in-state waiting s.programs h))
        (AllMoved-trans s1 s2 _ (AllMoved-programs s1 s2 table) (
          AllMoved-trans s2 s3 _
            (carry_out_all-AllMoved env frame now (resolve offers.candidates) s2 (
              resolve-ids (λ j. Alive j s2) offers.candidates
                (offered_ids env frame now (λ j. Alive j s2) s1.programs ids s1.world live)))
            (AllMoved-trans s3 s3' _ (apply_evals-AllMoved offers.evals s3) (
              AllMoved-trans s3' s4 _ (apply_fires-AllMoved now (direct ++ chosen) s3')
                (step_bodies-AllMoved env frame now ids s4)))))

  -- In a tick, with a frame or without, each program stays in its state or moves along an edge of
  -- the state machine: a waiting program may start, complete or fail, a running one may complete or
  -- fail, and one in any other state stays. No program appears and none is lost. This holds where
  -- the ids of the table are distinct, as those of a hash map are.
  pub tick_once-AllMoved :
      (grabbed : Option Frame) (s : Scheduler)
      → Distinct (keys s.programs)
      → AllMoved s (tick_once env grabbed s)
  unfolding tick_once report
  tick_once-AllMoved none s h = AllMoved-programs s _ refl
  tick_once-AllMoved (some frame) s h =
      let (now, s') = open_tick env s in
      AllMoved-trans s s' _ (AllMoved-programs s s' refl) (tick_frame-AllMoved frame now s' h)

  -- Turns of the loop in which no command arrives.
  abbrev pub undisturbed : List (Option Frame) → List (List SchedulerCommand × Option Frame)
  undisturbed frames = map (λ g. ([], g)) frames

  pub undisturbed-AllMoved :
      (frames : List (Option Frame)) (s : Scheduler)
      → Distinct (keys s.programs)
      → AllMoved s (run_until_shutdown env (undisturbed frames) s).1
  unfolding run_until_shutdown drain_commands
  undisturbed-AllMoved [] s h = AllMoved-refl s
  undisturbed-AllMoved (g ∷ gs) s h =
      AllMoved-trans s (tick_once env g s) _ (tick_once-AllMoved g s h) (
        undisturbed-AllMoved gs (tick_once env g s)
          (subst Distinct (sym (tick_once-keys env g s)) h))

  -- A program that has completed, failed or been cancelled stays so while no command arrives,
  -- whatever the screen shows: first any run of the loop, with any commands, from a table with
  -- distinct ids, then any turns without a command.
  pub finished-stays :
      (schedule : List (List SchedulerCommand × Option Frame)) (frames : List (Option Frame))
      (s : Scheduler) (k : ProgramId) (u : ProgramState)
      → Distinct (keys s.programs)
      → is_terminal u ≡ true
      → state_of k (run_until_shutdown env schedule s).1 ≡ some u
      → state_of k
          (run_until_shutdown env (undisturbed frames) (run_until_shutdown env schedule s).1).1
        ≡ some u
  finished-stays schedule frames s k u h done at =
      let t = (run_until_shutdown env schedule s).1 in
      Moved-final u done at
        ((undisturbed-AllMoved frames t (run-Distinct env schedule s h)).at_id k)
