-- ===== src/Dsl/Validation/Promises.antt =====
-- The validation of a whole program, and what the runtime may rely on.
use vcli.Prelude.{
  ℕ, suc, String, ◌≡◌, refl, sym, subst, Bool, true, false, Option, some, List, [], ◌∷◌,
  if◌then◌else◌, length, Dict, Result, ok, err,
}
use vcli.Core.Predicate.{PredicateKind}
use vcli.Core.Program.{Watch, WatchWhen, Program}
use vcli.Perception.State.{PerceptionError, Perception, Context}
use vcli.Perception.Evaluation.{Leaf, evaluate_facade}
use vcli.Perception.Evaluation.Totality.{Ends}
use vcli.Dsl.Path.{JsonPath, root, key}
use vcli.Dsl.Error.{DslErrorKind, DslError, Checked}
use vcli.Dsl.Predicates.{validate_predicate_graph}
use vcli.Dsl.Predicates.Ending.{accepted-Ends}
use vcli.Dsl.Predicates.Termination.{validate_predicate_graph-answers}
use vcli.Dsl.Steps.{validate_steps, validate_trigger}
use vcli.Dsl.Watches.{
  ◌and_check◌, relocated, relocate, insert_in_order, synthetic, validate_watch_when, validate_watch,
  validate_watches,
}
use vcli.Dsl.Validation.{Validated, checks, finish, with_hashes, compute_predicate_hashes}
use vcli.Dsl.Validation.References.{accepted-IsNamed}
use vcli.Dsl.Validation.Sound.{
  and_check-ok, some-ok, ProgramIsSound, finish-checks, steps-IsSound, watches-IsSound,
  trigger_sound,
}

abbrev Answered {ℓ} : {A : Type ℓ} → Option A → Type ℓ
Answered {A = A} o = (a : A) × (o ≡ some a)

and_check-answers : (a b : Option Checked) → Answered a → Answered b → Answered (a and_check b)
and_check-answers a b (ok u, e) hb = rw e hb
and_check-answers a b (err x, e) hb = (err x, rw e refl)

if-answers {ℓ} :
    {A : Type ℓ} (b : Bool) (x y : Option A)
    → Answered x
    → Answered y
    → Answered (if b then x else y)
if-answers true x y hx hy = hx
if-answers false x y hx hy = hy

relocated-answers : (at : JsonPath) (a : Option Checked) → Answered a → Answered (relocated at a)
relocated-answers at a (c, e) = (relocate at c, rw e refl)

module _ (predicates : Dict PredicateKind) where
  when-answers :
      (when : WatchWhen) (at : JsonPath) → Answered (validate_watch_when predicates when at)
  unfolding validate_watch_when
  when-answers (WatchWhen.by_name name) at = (_, refl)
  when-answers (WatchWhen.inline p) at =
      if-answers _ _ _ (_, refl)
        (relocated-answers at _
          (validate_predicate_graph-answers (insert_in_order synthetic p predicates)))

  watches-answers :
      (i : ℕ) (watches : List Watch) → Answered (validate_watches predicates i watches)
  unfolding validate_watches validate_watch
  watches-answers i [] = (ok tt, refl)
  watches-answers i (w ∷ watches) =
      and_check-answers _ _
        (and_check-answers _ _ (and_check-answers _ _ (when-answers w.when _) (_, refl)) (_, refl))
        (watches-answers (suc i) watches)

module _ (hash : PredicateKind → Result DslErrorKind String) where
  -- The validation of a program always answers: the search for cycles has fuel enough, in the map
  -- of the program and in each map with an inline predicate of a watch.
  pub finish-answers :
      (program : Program) → (r : Result DslError Validated) × (finish hash program ≡ some r)
  unfolding finish checks
  finish-answers program =
      let m = program.predicates in
      by_checks (
        and_check-answers _ _
          (and_check-answers _ _
            (and_check-answers _ _ (validate_predicate_graph-answers m) (_, refl))
            (watches-answers m 0 program.watches))
          (_, refl))
    where
      by_checks : Answered (checks hash program) → Answered (finish hash program)
      by_checks (ok u, e) = (
        with_hashes hash program (compute_predicate_hashes hash program.predicates),
        rw (e, finish) refl,
      )
      by_checks (err x, e) = (err x, rw (e, finish) refl)

  -- An accepted program uses predicates of its own only, in its predicates, its trigger, its watches
  -- with their inline predicates, and its body; its expressions read a predicate that looks at the
  -- screen, its absolute targets are not negative, and no watch holds a step that waits or asserts.
  pub finish-IsSound :
      (program : Program) (v : Validated)
      → finish hash program ≡ some (ok v)
      → ProgramIsSound program
  unfolding checks
  finish-IsSound program v e =
      let m = program.predicates in
      let all =
        and_check-ok _ (some (validate_steps m false 0 program.body (key root "body")))
          (finish-checks hash program v e) in
      let front = and_check-ok _ (validate_watches m 0 program.watches) all.0 in
      let first =
        and_check-ok (validate_predicate_graph m) (some (validate_trigger m program.trigger))
          front.0 in
      record {
        predicates = accepted-IsNamed m first.0;
        trigger = trigger_sound m program.trigger (some-ok _ first.1);
        watches = watches-IsSound m 0 program.watches front.1;
        body = steps-IsSound m false 0 program.body (key root "body") (some-ok _ all.1);
      }

  -- The evaluation of any name in an accepted program ends, with a result or an error: as much
  -- fuel as there are predicates is enough, whatever the cache and the evaluators of the screen are.
  pub finish-Ends :
      (program : Program) (v : Validated)
      → finish hash program ≡ some (ok v)
      → (key_of : PredicateKind → Result PerceptionError String) (leaf : Leaf) (ctx : Context)
      → ctx.predicates ≡ program.predicates
      → (name : String) (p : Perception)
      → Ends (evaluate_facade key_of leaf (length ctx.predicates) ctx name p)
  unfolding checks
  finish-Ends program v e key_of leaf ctx same name p =
      let m = program.predicates in
      let all =
        and_check-ok _ (some (validate_steps m false 0 program.body (key root "body")))
          (finish-checks hash program v e) in
      let front = and_check-ok _ (validate_watches m 0 program.watches) all.0 in
      let first =
        and_check-ok (validate_predicate_graph m) (some (validate_trigger m program.trigger))
          front.0 in
      accepted-Ends key_of leaf ctx name p
        (subst (λ d. validate_predicate_graph d ≡ some (ok tt)) (sym same) first.0)
