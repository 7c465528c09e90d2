-- ===== src/Examples/Programs.antt =====
-- Programs that the validation accepts and rejects.
use vcli.Prelude.{
  str_lt, String, ◌≡◌, refl, none, some, [], ◌∷◌, arith, All, Dict, lookup, insert, Result, ok, err,
  pos, decimal,
}
use vcli.Core.Predicate.{PredicateKind, color_at, all_of, any_of, not_of, elapsed_ms_since_true}
use vcli.Perception.State.{PerceptionError, Context, cycle, cached, fresh}
use vcli.Perception.Evaluation.{evaluate_facade}
use vcli.Perception.Evaluation.Totality.{Ends}
use vcli.Runtime.World.{World}
use vcli.Runtime.Body.{dispatch_action}
use vcli.Runtime.Scheduler.Watching.{inline_name, with_inline}
use vcli.Runtime.Scheduler.Shadowing.{inline-shadows}
use vcli.Dsl.Predicates.Cycles.{IsCycle}
use vcli.Dsl.Predicates.Rejected.{rejected-IsCycle}
use vcli.Dsl.Validation.Sound.{ProgramIsSound}
use vcli.Dsl.Validation.Promises.{finish-answers, finish-IsSound, finish-Ends}
use vcli.Dsl.Validation.Dispatch.{IsExternal, finish-IsExternal}
use vcli.Examples.Data.{quiet_env, screen, plain, seen}
use vcli.Core.Program.{Target, Step, OnTimeout, WatchWhen, Lifetime, Trigger, Program}
use vcli.Core.Program.{left}
use vcli.Dsl.Path.{root, key, to_string}
use vcli.Dsl.Error.{DslErrorKind, DslError, predicate_cycle}
use vcli.Dsl.Hint.{did_you_mean, distance_at_most_1, differ_at_most_1, is_insertion, skip_gap}
use vcli.Dsl.Expression.{parse_expression, split_dots}
use vcli.Dsl.Predicates.{
  resolve_name, resolve_elapsed, resolve_all, check_predicate_references, check_each,
  validate_predicate_shape, from_position, reversed_onto, cycle_at, round, visit, visit_all,
  validate_predicate_graph,
}
use vcli.Dsl.Steps.{
  resolve_step_name, validate_target, validate_step, validate_steps, validate_trigger,
}
use vcli.Dsl.Watches.{validate_watch_when, validate_lifetime, validate_watch, validate_watches}
use vcli.Dsl.Validation.{Validated, compute_predicate_hashes, checks, finish}

abbrev same_hash : PredicateKind → Result DslErrorKind String
same_hash p = ok "h"

-- It waits until the spot is gone and clicks where it was.
abbrev pub guard : Program
guard = record plain {
  trigger = Trigger.on_predicate "spot";
  predicates =
      ("calm", not_of "spot")
      ∷ ("spot", color_at (record { x = pos 0; y = pos 0 }) (record { r = 0; g = 0; b = 0 }) 0)
      ∷ [];
  watches =
      record {
        when = WatchWhen.inline (all_of ("calm" ∷ "spot" ∷ []));
        steps = Step.click (Target.expression "$spot.match.center") left ∷ [];
        throttle_ms = 0;
        lifetime = Lifetime.until_predicate "calm";
      }
      ∷ [];
  body = Step.wait_for "calm" 100 OnTimeout.fail ∷ [];
}

abbrev pub guard_accepted : Validated
guard_accepted = record { program = guard; hashes = ("calm", "h") ∷ ("spot", "h") ∷ [] }

guard-accepted : finish same_hash guard ≡ some (ok guard_accepted)
unfolding finish checks validate_predicate_graph validate_predicate_shape check_each
    check_predicate_references resolve_all resolve_name resolve_elapsed visit_all visit round
    validate_trigger validate_watches validate_watch validate_watch_when validate_lifetime
    validate_steps validate_step validate_target resolve_step_name parse_expression split_dots
    compute_predicate_hashes lookup insert to_string str_lt
guard-accepted = refl

-- Each of the two reads the other.
abbrev entangled : Dict PredicateKind
entangled = ("a", not_of "b") ∷ ("b", elapsed_ms_since_true "a" 5) ∷ []

abbrev entangled_error : DslError
entangled_error = record {
  kind = predicate_cycle ("a" ∷ "b" ∷ "a" ∷ []);
  path = key root "predicates";
}

entangled-rejected : validate_predicate_graph entangled ≡ some (err entangled_error)
unfolding validate_predicate_graph validate_predicate_shape check_each check_predicate_references
    resolve_all resolve_name resolve_elapsed visit_all visit round cycle_at from_position
    reversed_onto lookup insert
entangled-rejected = refl

misspelled : did_you_mean "spto" ("calm" ∷ "spot" ∷ "spt" ∷ []) ≡ some "spt"
unfolding did_you_mean distance_at_most_1 differ_at_most_1 is_insertion skip_gap
misspelled = refl

rejected-IsCycle_example : IsCycle entangled (predicate_cycle ("a" ∷ "b" ∷ "a" ∷ []))
rejected-IsCycle_example = rejected-IsCycle entangled entangled_error entangled-rejected

finish-answers_example : (r : Result DslError Validated) × (finish same_hash guard ≡ some r)
finish-answers_example = finish-answers same_hash guard

finish-IsSound_example : ProgramIsSound guard
finish-IsSound_example = finish-IsSound same_hash guard guard_accepted guard-accepted

abbrev guard_context : Context
guard_context = record {
  predicates = guard.predicates;
  frame = screen;
  now_ms = pos 50;
  assets = [];
  program = some 7;
}

abbrev one_key : PredicateKind → Result PerceptionError String
one_key p = ok "key"

finish-Ends_example :
    Ends (evaluate_facade one_key (λ pred ctx p. (ok seen, p)) 2 guard_context "calm" fresh)
finish-Ends_example =
    finish-Ends same_hash guard guard_accepted guard-accepted one_key (λ pred ctx p. (ok seen, p))
      guard_context refl "calm" fresh

finish-IsExternal_example :
    All
      (λ watch.
        All
          (λ s. (w : World) → IsExternal (dispatch_action quiet_env guard_context s w).0)
          watch.steps)
      guard.watches
finish-IsExternal_example =
    finish-IsExternal quiet_env guard_context same_hash guard guard_accepted guard-accepted

fresh-cached : cached fresh "key" ≡ none
unfolding cached lookup
fresh-cached = refl

-- The program has a predicate of the name, and its first watch negates it.
abbrev shadowed : Context
shadowed = record guard_context { predicates = ("__inline_0", any_of []) ∷ [] }

abbrev shadow_name : String
shadow_name = inline_name quiet_env shadowed (pos 50) (pos 0) 0

inline-shadows_example :
    evaluate_facade one_key
      (λ pred ctx p. (ok seen, p))
      40
      (with_inline quiet_env shadowed (pos 50) (pos 0) 0 (not_of shadow_name))
      shadow_name
      fresh
    ≡ some (err (cycle shadow_name), fresh)
inline-shadows_example =
    inline-shadows quiet_env one_key (λ pred ctx p. (ok seen, p)) shadowed (pos 50) (pos 0) 0 40
      "key" fresh refl fresh-cached (omega arith)

shadow_name_is : shadow_name ≡ "__inline_0"
unfolding decimal
shadow_name_is = refl
