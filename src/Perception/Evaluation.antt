-- ===== src/Perception/Evaluation.antt =====
-- crates/vcli-perception/src/{perception,logical,elapsed}.rs: the evaluation of a named predicate,
-- through the cache of the tick. `hash` is the hash of the predicate's canonical JSON, and `leaf`
-- the evaluator of a predicate that looks at the screen. The recursion has fuel; `none` means that
-- it did not end within it.
use vcli.Prelude.{
  ℕ, zero, suc, ◌+◌, String, Bool, true, false, not, Option, none, some, List, [], ◌∷◌, leb,
  if◌then◌else◌, lookup, Result, ok, err, ℤ, pos, leb_ℤ, saturating_sub,
}
use vcli.Core.Predicate.{
  PredicateKind, all_of, any_of, not_of, elapsed_ms_since_true, PredicateResult,
}
use vcli.Core.Program.{ProgramId}
use vcli.Perception.State.{
  PerceptionError, unknown_predicate, cycle, asset_decode, ProgramPredKey, Perception, cached,
  cache_insert, first_true_at, set_first_true_at, clear_first_true_at, Context,
}
pub mod Totality
pub mod Sharing
pub mod Elapsed

abbrev pub Out : Type 0
Out = Option (Result PerceptionError PredicateResult × Perception)

-- `?` on the result, with the state that it leaves.
abbrev pub and_then : Out → (PredicateResult → Perception → Out) → Out
and_then none next = none
and_then (some (err e, p)) next = some (err e, p)
and_then (some (ok r, p)) next = next r p

-- `predicates.get(name).ok_or_else(…)?`
abbrev pub found : String → Perception → Option PredicateKind → (PredicateKind → Out) → Out
found name p none next = some (err (unknown_predicate name), p)
found name p (some pred) next = next pred

abbrev pub verdict : Context → Bool → PredicateResult
verdict ctx t = record { truthy = t; match_data = none; at = ctx.now_ms }

module _ (ctx : Context) (child : String → Perception → Out) where
  -- It stops at the first child that is false.
  unfoldable pub eval_all_of : List String → Perception → Out
  eval_all_of [] p = some (ok (verdict ctx true), p)
  eval_all_of (name ∷ rest) p =
      and_then (child name p)
        (λ r q. if r.truthy then eval_all_of rest q else some (ok (verdict ctx false), q))

  -- It stops at the first child that is true.
  unfoldable pub eval_any_of : List String → Perception → Out
  eval_any_of [] p = some (ok (verdict ctx false), p)
  eval_any_of (name ∷ rest) p =
      and_then (child name p)
        (λ r q. if r.truthy then some (ok (verdict ctx true), q) else eval_any_of rest q)

  unfoldable pub eval_not : String → Perception → Out
  eval_not name p = and_then (child name p) (λ r q. some (ok (verdict ctx (not r.truthy)), q))

  -- `first_true_at(&key).unwrap_or(ctx.now_ms)`
  abbrev pub first_or_now : Option ℤ → ℤ
  first_or_now none = ctx.now_ms
  first_or_now (some t) = t

  -- The child was true: its first time is noted unless there is one.
  abbrev pub while_true : ProgramPredKey → ℕ → Perception → Out
  while_true key ms p =
      let q = set_first_true_at p key ctx.now_ms in
      let elapsed = saturating_sub ctx.now_ms (first_or_now (first_true_at q key)) in
      some (ok (verdict ctx (leb_ℤ (pos ms) elapsed)), q)

  abbrev pub elapsed_in : Option ProgramId → String → ℕ → Perception → Out
  elapsed_in none name ms p =
      some (err (asset_decode "elapsed_ms_since_true evaluated outside program context"), p)
  elapsed_in (some program) name ms p =
      let key : ProgramPredKey = record { program = program; predicate = name } in
      and_then (child name p) (λ r q.
        if r.truthy
        then while_true key ms q
        else some (ok (verdict ctx false), clear_first_true_at q key))

  unfoldable pub eval_elapsed : String → ℕ → Perception → Out
  eval_elapsed name ms p = elapsed_in ctx.program name ms p

-- The evaluator of a kind that looks at the screen.
abbrev pub Leaf : Type 0
Leaf = PredicateKind → Context → Perception → Result PerceptionError PredicateResult × Perception

module _ (hash : PredicateKind → Result PerceptionError String) (leaf : Leaf) where
  -- The evaluator of each kind. The children of a logical predicate are at `depth`, the child of
  -- an elapsed one is at depth 0 again.
  unfoldable pub dispatch :
      Context → (String → ℕ → Perception → Out) → PredicateKind → ℕ → Perception → Out
  unfolding eval_all_of eval_any_of eval_not eval_elapsed
  dispatch ctx child (all_of names) depth p = eval_all_of ctx (λ n q. child n depth q) names p
  dispatch ctx child (any_of names) depth p = eval_any_of ctx (λ n q. child n depth q) names p
  dispatch ctx child (not_of name) depth p = eval_not ctx (λ n q. child n depth q) name p
  dispatch ctx child (elapsed_ms_since_true name ms) depth p =
      eval_elapsed ctx (λ n q. child n 0 q) name ms p
  dispatch ctx child pred depth p = some (leaf pred ctx p)

  abbrev pub store_result : String → Out → Out
  store_result h out = and_then out (λ r p. some (ok r, cache_insert p h r))

  abbrev pub from_cache : String → Perception → Out → Option PredicateResult → Out
  from_cache h p out (some r) = some (ok r, p)
  from_cache h p out none = store_result h out

  -- The cache in front of a computation.
  abbrev pub memoized : Result PerceptionError String → Perception → Out → Out
  memoized (err e) p out = some (err e, p)
  memoized (ok h) p out = from_cache h p out (cached p h)

  unfoldable pub evaluate_named_with_depth : ℕ → Context → String → ℕ → Perception → Out
  unfolding dispatch
  evaluate_named_with_depth zero ctx name depth p = none
  evaluate_named_with_depth (suc fuel) ctx name depth p =
      if leb 32 depth
      then some (err (cycle name), p)
      else found name p (lookup name ctx.predicates) (λ pred.
        memoized (hash pred) p
          (dispatch ctx (evaluate_named_with_depth fuel ctx) pred (depth + 1) p))

  -- `Perception::evaluate_named`
  unfoldable pub evaluate_facade : ℕ → Context → String → Perception → Out
  unfolding evaluate_named_with_depth
  evaluate_facade fuel ctx name p =
      found name p (lookup name ctx.predicates) (λ pred.
        memoized (hash pred) p (dispatch ctx (evaluate_named_with_depth fuel ctx) pred 0 p))
