-- ===== src/Runtime/Scheduler/Watching.antt =====
-- The first half of `tick_once`: the waiting programs whose trigger fires start, and the watches of
-- each running program are evaluated.
use vcli.Prelude.{
  ℕ, ◌+◌, String, str_append, Bool, true, false, Option, none, some, List, [], ◌∷◌, ◌++◌,
  if◌then◌else◌, Assoc, get, put, insert, Result, ok, err, ℤ, decimal,
}
use vcli.Core.State.{waiting, running, failed}
use vcli.Core.Predicate.{PredicateKind, PredicateResult, Frame}
use vcli.Core.Program.{Step, WatchWhen, Lifetime, Watch, ProgramId}
use vcli.Core.Event.{program_state_changed, program_failed}
use vcli.Core.Program.{by_name, inline, until_predicate}
use vcli.Perception.State.{Context}
use vcli.Runtime.Error.{RuntimeError, reason_of}
use vcli.Runtime.Program.{RunningProgram, WatchRuntime, default_watch}
use vcli.Runtime.Watches.{WatchDecision, fire, retire, decide, is_one_shot}
use vcli.Runtime.World.{Env, World}
use vcli.Runtime.Body.{evaluate_named, trigger_fires}
use vcli.Runtime.Scheduler.State.{Scheduler, report, change, enter, context}

-- `rp.watch_state.insert(i, WatchRuntime::default())` for each watch.
unfoldable pub fill_watches : ℕ → List Watch → Assoc WatchRuntime → Assoc WatchRuntime
fill_watches i [] m = m
fill_watches i (w ∷ ws) m = fill_watches (i + 1) ws (put i default_watch m)

module _ (env : Env) (frame : Frame) (now : ℤ) where
  abbrev pub triggered : RunningProgram → RunningProgram
  triggered rp = record rp {
    state = running;
    running_since_ms = some now;
    body_cursor = some 0;
    watch_state = fill_watches 0 rp.program.watches rp.watch_state;
  }

  abbrev pub after_trigger : ProgramId → Result RuntimeError Bool → Scheduler → Scheduler
  after_trigger k (ok true) s =
      report env (program_state_changed k waiting running "trigger_fired") (change k triggered s)
  after_trigger k (ok false) s = s
  after_trigger k (err e) s =
      report env (program_failed k (reason_of e) none none) (change k (enter failed) s)

  abbrev pub try_trigger : ProgramId → Option RunningProgram → Scheduler → Scheduler
  try_trigger k none s = s
  try_trigger k (some p) s =
      let (r, w) = trigger_fires env (context frame now k p) p.program.trigger s.world in
      after_trigger k r (record s { world = w })

  unfoldable pub start_waiting : List ProgramId → Scheduler → Scheduler
  start_waiting [] s = s
  start_waiting (k ∷ ks) s = start_waiting ks (try_trigger k (get k s.programs) s)

-- What one watch gave: nothing (retired, or its predicate failed), the terminator tripped, or its
-- truth and the decision.
pub data Checked : Type 0 where
  passed tripped : Checked
  decided : Bool → WatchDecision → Checked

module _ (env : Env) (ctx : Context) (now since : ℤ) where
  -- The terminator of `Lifetime::UntilPredicate`; an error of it is only logged.
  abbrev pub terminator : Lifetime → World → Bool × World
  terminator (until_predicate name) w =
      let (r, w') = evaluate_named env ctx name w in
      (elim r [ ok p ↦ p.truthy | err e ↦ false ], w')
  terminator _ w = (false, w)

  -- An inline predicate is evaluated under a name of its own.
  abbrev pub inline_name : ℕ → String
  inline_name i = str_append "__inline_" (decimal i)

  abbrev pub with_inline : ℕ → PredicateKind → Context
  with_inline i p = record ctx { predicates = insert (inline_name i) p ctx.predicates }

  abbrev pub evaluate_when : ℕ → WatchWhen → World → Result RuntimeError PredicateResult × World
  evaluate_when i (by_name n) w = evaluate_named env ctx n w
  evaluate_when i (inline p) w = evaluate_named env (with_inline i p) (inline_name i) w

  abbrev pub judge : Watch → WatchRuntime → Result RuntimeError PredicateResult → Checked
  judge watch state (err e) = passed
  judge watch state (ok r) = decided r.truthy (decide watch state r.truthy now since)

  abbrev pub check_live : ℕ → Watch → WatchRuntime → Bool × World → Checked × World
  check_live i watch state (true, w) = (tripped, w)
  check_live i watch state (false, w) =
      let (r, w') = evaluate_when i watch.when w in (judge watch state r, w')

  unfoldable pub check_watch : ℕ → Watch → WatchRuntime → World → Checked × World
  check_watch i watch state w =
      if state.retired then (passed, w) else check_live i watch state (terminator watch.lifetime w)

pub record WatchFire : Type 0 where
  pub index : ℕ
  pub steps : List Step
  pub one_shot : Bool

-- The lists of one program: `truthies`, `retires` and `fires`.
pub record Checks : Type 0 where
  pub truthies : List (ℕ × Bool)
  pub retires : List ℕ
  pub fires : List WatchFire

abbrev pub fire_of : ℕ → Watch → WatchDecision → List WatchFire
fire_of i watch fire =
    record { index = i; steps = watch.steps; one_shot = is_one_shot watch.lifetime } ∷ []
fire_of i watch _ = []

abbrev pub retire_of : ℕ → WatchDecision → List ℕ
retire_of i retire = i ∷ []
retire_of i _ = []

-- The entries of one watch go in front of those of the later watches.
abbrev pub add_check : ℕ → Watch → Checked → Checks → Checks
add_check i watch passed c = c
add_check i watch tripped c = record c { retires = i ∷ c.retires }
add_check i watch (decided t d) c = record {
  truthies = (i, t) ∷ c.truthies;
  retires = retire_of i d ++ c.retires;
  fires = fire_of i watch d ++ c.fires;
}

abbrev pub or_default : Option WatchRuntime → WatchRuntime
or_default none = default_watch
or_default (some w) = w

module _ (env : Env) (ctx : Context) (now since : ℤ) where
  unfoldable pub check_watches : Assoc WatchRuntime → ℕ → List Watch → World → Checks × World
  check_watches m i [] w = (record { truthies = []; retires = []; fires = [] }, w)
  check_watches m i (watch ∷ rest) w =
      let (c, w') = check_watch env ctx now since i watch (or_default (get i m)) w in
      let (cs, w'') = check_watches m (i + 1) rest w' in (add_check i watch c cs, w'')
