-- ===== src/Runtime/Scheduler/Shadowing.antt =====
-- The name under which crates/vcli-runtime/src/scheduler.rs evaluates an inline predicate is not the
-- one that crates/vcli-dsl/src/watches.rs reserves, so a program may have a predicate of that name.
use vcli.Prelude.{
  ℕ, zero, suc, ◌+◌, ◌≤◌, ◌<◌, String, ◌≡◌, refl, ◌∙◌, true, false, none, some, arith, eq_refl, leb,
  lookup, lookup-insert, Result, ok, err, ℤ,
}
use vcli.Core.Predicate.{PredicateKind, not_of}
use vcli.Perception.State.{PerceptionError, cycle, Perception, cached, Context}
use vcli.Perception.Evaluation.{
  Leaf, eval_not, dispatch, memoized, evaluate_named_with_depth, evaluate_facade,
}
use vcli.Runtime.World.{Env}
use vcli.Runtime.Scheduler.Watching.{inline_name, with_inline}

module _ (hash : PredicateKind → Result PerceptionError String) (leaf : Leaf) (ctx : Context)
    (name key : String) (p : Perception) where
  not_of-cycle :
      lookup name ctx.predicates ≡ some (not_of name)
      → hash (not_of name) ≡ ok key
      → cached p key ≡ none
      → (left fuel depth : ℕ) → depth + left ≡ 32
      → left < fuel
      → evaluate_named_with_depth hash leaf fuel ctx name depth p ≡ some (err (cycle name), p)
  unfolding evaluate_named_with_depth dispatch eval_not
  not_of-cycle hn hk hc left zero depth e low = absurd (omega (arith, low))
  not_of-cycle hn hk hc zero (suc fuel) depth e low =
      let full : leb 32 depth ≡ true = ground (arith, e) in rw full refl
  not_of-cycle hn hk hc (suc left) (suc fuel) depth e low =
      let room : leb 32 depth ≡ false = ground (arith, e) in
      let deeper =
        not_of-cycle hn hk hc left fuel (depth + 1) (omega (arith, e)) (omega (arith, low)) in
      rw (room, hn, hk, memoized, hc, deeper) refl

module _ (env : Env) (hash : PredicateKind → Result PerceptionError String) (leaf : Leaf)
    (ctx : Context) (now since : ℤ) where
  -- The inline predicate of watch `i` that negates a predicate of the program named `__inline_i` is
  -- put in the place of that predicate: it reads itself, whatever the program's predicate says, and
  -- its evaluation is the error of a cycle at every tick whose cache does not hold it.
  pub inline-shadows :
      (i fuel : ℕ) (key : String) (p : Perception)
      → hash (not_of (inline_name env ctx now since i)) ≡ ok key
      → cached p key ≡ none
      → 33 ≤ fuel
      → evaluate_facade hash leaf fuel
          (with_inline env ctx now since i (not_of (inline_name env ctx now since i)))
          (inline_name env ctx now since i)
          p
        ≡ some (err (cycle (inline_name env ctx now since i)), p)
  unfolding evaluate_facade dispatch eval_not
  inline-shadows i fuel key p hk hc enough =
      let name = inline_name env ctx now since i in
      let merged = with_inline env ctx now since i (not_of name) in
      let hn : lookup name merged.predicates ≡ some (not_of name) =
        lookup-insert name name (not_of name) ctx.predicates ∙ rw (eq_refl name) refl in
      let deeper =
        not_of-cycle hash leaf merged name key p hn hk hc 32 fuel 0 (omega arith)
          (omega (arith, enough)) in
      rw (hn, hk, memoized, hc, deeper) refl
