-- ===== src/Runtime/Scheduler/Firing.antt =====
-- The middle of `tick_once`: one fire of each running program is offered, the arbiter chooses, and
-- the actions of the winner are dispatched.
use vcli.Prelude.{
  ℕ, String, str_append, Bool, true, false, Option, none, some, List, [], ◌∷◌, ◌++◌, if◌then◌else◌,
  get_elem?, Assoc, get, put, Result, ok, err, ℤ, decimal,
}
use vcli.Core.State.{failed}
use vcli.Core.Predicate.{Frame}
use vcli.Core.Program.{Step, ProgramId}
use vcli.Core.Event.{program_failed, watch_fired, action_dispatched, action_deferred}
use vcli.Perception.State.{Context}
use vcli.Runtime.Error.{RuntimeError, reason_of}
use vcli.Runtime.Program.{RunningProgram, WatchRuntime}
use vcli.Runtime.Watches.{after_fire}
use vcli.Runtime.Arbiter.{Candidate, Decision}
use vcli.Runtime.World.{Env, World, emit}
use vcli.Runtime.Body.{dispatch_action}
use vcli.Runtime.Scheduler.State.{Scheduler, report, change, enter, context}
use vcli.Runtime.Scheduler.Watching.{WatchFire, Checks, check_watches, or_default}

-- `evals`, `candidates` and `direct_fires`; an entry of the last names the program.
pub record Offers : Type 0 where
  pub evals : List (ProgramId × Checks)
  pub candidates : List (Candidate WatchFire)
  pub direct_fires : List (ProgramId × WatchFire)

abbrev pub no_offers : Offers
no_offers = record { evals = []; candidates = []; direct_fires = [] }

abbrev pub has_steps : WatchFire → Bool
has_steps f = elim f.steps [ [] ↦ false | s ∷ ss ↦ true ]

-- Only the first fire of a program is offered.
abbrev pub offer : ProgramId → ℤ → Checks → List WatchFire → Offers → Offers
offer k priority c [] o = record o { evals = (k, c) ∷ o.evals }
offer k priority c (f ∷ fs) o =
    if has_steps f
    then record o {
      evals = (k, c) ∷ o.evals;
      candidates = record { program_id = k; priority = priority; payload = f } ∷ o.candidates;
    }
    else record o { evals = (k, c) ∷ o.evals; direct_fires = (k, f) ∷ o.direct_fires }

abbrev pub or_time : Option ℤ → ℤ → ℤ
or_time none now = now
or_time (some t) now = t

module _ (env : Env) (frame : Frame) (now : ℤ) where
  unfoldable pub evaluate_running : Assoc RunningProgram → List ProgramId → World → Offers × World
  evaluate_running m [] w = (no_offers, w)
  evaluate_running m (k ∷ ks) w = elim (get k m) [
    | none ↦ evaluate_running m ks w
    | some rp ↦
        let since = or_time rp.running_since_ms now in
        let (c, w') =
          check_watches env (context frame now k rp) now since rp.watch_state 0 rp.program.watches
            w in
        let (o, w'') = evaluate_running m ks w' in (offer k rp.program.priority c c.fires o, w'')
  ]

  -- The steps of a watch in order, each reported before it is tried, up to the first error.
  unfoldable pub dispatch_steps :
      ProgramId → Context → List Step → World → Result RuntimeError (Unit {0}) × World
  dispatch_steps k ctx [] w = (ok tt, w)
  dispatch_steps k ctx (s ∷ ss) w =
      let (r, w') = dispatch_action env ctx s (emit env (action_dispatched k s none) w) in
      elim r [ ok _ ↦ dispatch_steps k ctx ss w' | err e ↦ (err e, w') ]

-- A watch that dispatched, `(program, watch_idx, one_shot)`.
pub record Fired : Type 0 where
  pub program_id : ProgramId
  pub index : ℕ
  pub one_shot : Bool

abbrev pub fired_by : ProgramId → WatchFire → Fired
fired_by k f = record { program_id = k; index = f.index; one_shot = f.one_shot }

-- `format!("watch[{watch_idx}]")`
abbrev pub watch_place : ℕ → String
watch_place i = str_append "watch[" (str_append (decimal i) "]")

module _ (env : Env) where
  -- `direct_fires`: nothing to arbitrate.
  unfoldable pub fire_directly : List (ProgramId × WatchFire) → Scheduler → List Fired × Scheduler
  fire_directly [] s = ([], s)
  fire_directly ((k, f) ∷ rest) s =
      let (fs, s') = fire_directly rest (report env (watch_fired k f.index "watch") s) in
      (fired_by k f ∷ fs, s')

module _ (env : Env) (frame : Frame) (now : ℤ) where
  abbrev pub after_dispatch :
      ProgramId
      → WatchFire
      → RunningProgram
      → Result RuntimeError (Unit {0})
      → Scheduler
      → List Fired × Scheduler
  after_dispatch k f rp (ok _) s = (fired_by k f ∷ [], report env (watch_fired k f.index "watch") s)
  after_dispatch k f rp (err e) s = (
    [],
    report env (program_failed k (reason_of e) (some (watch_place f.index)) rp.program.on_fail)
        (change k (enter failed) s),
  )

  abbrev pub dispatch_winner :
      ProgramId → WatchFire → Option RunningProgram → Scheduler → List Fired × Scheduler
  dispatch_winner k f none s = ([], s)
  dispatch_winner k f (some rp) s =
      let (r, w) = dispatch_steps env frame now k (context frame now k rp) f.steps s.world in
      after_dispatch k f rp r (record s { world = w })

  abbrev pub defer_loser :
      ProgramId → WatchFire → Option ProgramId → Scheduler → List Fired × Scheduler
  defer_loser k f none s = ([], s)
  defer_loser k f (some winner) s = ([], report env (action_deferred k f.steps winner) s)

  unfoldable pub carry_out : Decision WatchFire → Scheduler → List Fired × Scheduler
  carry_out d s =
      if d.dispatch
      then dispatch_winner d.program_id d.payload (get d.program_id s.programs) s
      else defer_loser d.program_id d.payload d.loser_of s

  unfoldable pub carry_out_all : List (Decision WatchFire) → Scheduler → List Fired × Scheduler
  unfolding carry_out
  carry_out_all [] s = ([], s)
  carry_out_all (d ∷ ds) s =
      let (fs, s') = carry_out d s in let (gs, s'') = carry_out_all ds s' in (fs ++ gs, s'')

-- `rp.watch_state.entry(idx).or_default()`, changed by `f`.
unfoldable pub on_entry :
    ℕ → (WatchRuntime → WatchRuntime) → Assoc WatchRuntime → Assoc WatchRuntime
on_entry i f m = put i (f (or_default (get i m))) m

unfoldable pub note_truthies : List (ℕ × Bool) → Assoc WatchRuntime → Assoc WatchRuntime
unfolding on_entry
note_truthies [] m = m
note_truthies ((i, t) ∷ rest) m =
    note_truthies rest (on_entry i (λ w. record w { last_truthy = t }) m)

unfoldable pub note_retires : List ℕ → Assoc WatchRuntime → Assoc WatchRuntime
unfolding on_entry
note_retires [] m = m
note_retires (i ∷ rest) m = note_retires rest (on_entry i (λ w. record w { retired = true }) m)

abbrev pub note_checks : Checks → RunningProgram → RunningProgram
note_checks c rp = record rp {
  watch_state = note_retires c.retires (note_truthies c.truthies rp.watch_state);
}

unfoldable pub apply_evals : List (ProgramId × Checks) → Scheduler → Scheduler
apply_evals [] s = s
apply_evals ((k, c) ∷ rest) s = apply_evals rest (change k (note_checks c) s)

-- `after_fire` on the watch's entry. An index behind the last watch would panic in the source.
abbrev pub note_fire : ℤ → ℕ → RunningProgram → RunningProgram
note_fire now i rp = elim (get_elem? rp.program.watches i) [
  | none ↦ rp
  | some watch ↦ record rp { watch_state = on_entry i (after_fire watch now) rp.watch_state }
]

unfoldable pub apply_fires : ℤ → List Fired → Scheduler → Scheduler
apply_fires now [] s = s
apply_fires now (f ∷ rest) s = apply_fires now rest (change f.program_id (note_fire now f.index) s)
