-- ===== src/Dsl/Validation/Sound.antt =====
-- What an accepted program promises: the names that it uses are its own, and its watches hold only
-- steps that a watch can run.
use vcli.Prelude.{
  ℕ, suc, String, ◌≡◌, refl, inl, inr, Bool, true, false, Option, none, some, List, [], ◌∷◌, arith,
  Bool-cases, All, Dict, lookup, Result, ok, err,
}
use vcli.Core.Predicate.{
  PredicateKind, template, color_at, pixel_diff, all_of, any_of, not_of, elapsed_ms_since_true,
}
use vcli.Core.Program.{Target, Step, Trigger, WatchWhen, Lifetime, Watch, Program}
use vcli.Dsl.Path.{JsonPath, root, key, index}
use vcli.Dsl.Error.{
  unknown_predicate_name, unknown_watch_name, unknown_trigger_name, DslErrorKind, Checked,
}
use vcli.Dsl.Expression.{Expression, MalformedExpression, parse_expression}
use vcli.Dsl.Predicates.{names_of, contains, edges_of}
use vcli.Dsl.Steps.{
  resolve_as, is_negative, check_match, check_expression, validate_target, body_only, validate_step,
  validate_steps, validate_trigger, resolve_step_name,
}
use vcli.Dsl.Watches.{
  ◌and_check◌, validate_watch_when, validate_lifetime, validate_watch, validate_watches,
}
use vcli.Dsl.Validation.References.{then_check-ok}
use vcli.Dsl.Validation.Inline.{watch_when-IsNamed}
use vcli.Dsl.Validation.{Validated, checks, finish, with_hashes, compute_predicate_hashes}

pub and_check-ok :
    (a b : Option Checked)
    → (a and_check b) ≡ some (ok tt)
    → (a ≡ some (ok tt)) × (b ≡ some (ok tt))
and_check-ok none b e = cc e
and_check-ok (some (err x)) b e = cc e
and_check-ok (some (ok tt)) b e = (refl, e)

pub some-ok : (a : Checked) → ◌≡◌ {A = Option Checked} (some a) (some (ok tt)) → a ≡ ok tt
some-ok a e = cc e

body_only-ok :
    (in_watch : Bool) (kind : String) (at : JsonPath) (next : Checked)
    → body_only in_watch kind at next ≡ ok tt
    → (in_watch ≡ false) × (next ≡ ok tt)
body_only-ok true kind at next e = cc e
body_only-ok false kind at next e = (refl, e)

module _ (predicates : Dict PredicateKind) where
  abbrev pub IsKnown : String → Type 0
  IsKnown name = contains (names_of predicates) name ≡ true

  -- An expression reads the match of a predicate that looks at the screen.
  abbrev pub HasMatch : Option PredicateKind → Type 0
  HasMatch (some (template _ _ _ _)) = Unit {0}
  HasMatch (some (color_at _ _ _)) = Unit {0}
  HasMatch (some (pixel_diff _ _ _)) = Unit {0}
  HasMatch _ = ⊥

  abbrev pub TargetIsSound : Target → Type 0
  TargetIsSound (Target.absolute p) = (is_negative p.x ≡ false) × (is_negative p.y ≡ false)
  TargetIsSound (Target.expression raw) =
      (e : Expression) × (parse_expression raw ≡ ok e) × HasMatch (lookup e.name predicates)

  abbrev pub StepIsSound : Bool → Step → Type 0
  StepIsSound in_watch (Step.move t) = TargetIsSound t
  StepIsSound in_watch (Step.click t button) = TargetIsSound t
  StepIsSound in_watch (Step.scroll t dx dy) = TargetIsSound t
  StepIsSound in_watch (Step.type_text text) = Unit {0}
  StepIsSound in_watch (Step.key k modifiers) = Unit {0}
  StepIsSound in_watch (Step.wait_for name ms policy) = (in_watch ≡ false) × IsKnown name
  StepIsSound in_watch (Step.assert name policy) = (in_watch ≡ false) × IsKnown name
  StepIsSound in_watch (Step.sleep_ms ms) = in_watch ≡ false

  abbrev pub WhenIsSound : WatchWhen → Type 0
  WhenIsSound (WatchWhen.by_name name) = IsKnown name
  WhenIsSound (WatchWhen.inline p) = All IsKnown (edges_of p)

  abbrev pub LifetimeIsSound : Lifetime → Type 0
  LifetimeIsSound (Lifetime.until_predicate name) = IsKnown name
  LifetimeIsSound _ = Unit {0}

  abbrev pub TriggerIsSound : Trigger → Type 0
  TriggerIsSound (Trigger.on_predicate name) = IsKnown name
  TriggerIsSound _ = Unit {0}

  pub record WatchIsSound (w : Watch) : Type 0 where
    pub when : WhenIsSound w.when
    pub steps : All (StepIsSound true) w.steps
    pub lifetime : LifetimeIsSound w.lifetime

  resolve_as-IsKnown :
      (kind : String → Option String → DslErrorKind) (name : String) (at : JsonPath)
      → resolve_as predicates kind name at ≡ ok tt
      → IsKnown name
  resolve_as-IsKnown kind name at e = elim (Bool-cases (contains (names_of predicates) name)) [
    | inl known ↦ known
    | inr unknown ↦ absurd (ground arith)
  ]

  check_match-HasMatch :
      (name : String) (at : JsonPath) (p : Option PredicateKind)
      → check_match predicates name at p ≡ ok tt
      → HasMatch p
  check_match-HasMatch name at none e = cc e
  check_match-HasMatch name at (some (all_of x)) e = cc e
  check_match-HasMatch name at (some (any_of x)) e = cc e
  check_match-HasMatch name at (some (not_of x)) e = cc e
  check_match-HasMatch name at (some (elapsed_ms_since_true x y)) e = cc e
  check_match-HasMatch name at (some (template x y z w)) e = tt
  check_match-HasMatch name at (some (color_at x y z)) e = tt
  check_match-HasMatch name at (some (pixel_diff x y z)) e = tt

  target-IsSound :
      (t : Target) (at : JsonPath) → validate_target predicates t at ≡ ok tt → TargetIsSound t
  unfolding validate_target
  target-IsSound (Target.absolute p) at e = (ground arith, ground arith)
  target-IsSound (Target.expression raw) at e = by_parse (parse_expression raw) refl e
    where
      by_parse :
          (r : Result MalformedExpression Expression)
          → parse_expression raw ≡ r
          → check_expression predicates at r ≡ ok tt
          → TargetIsSound (Target.expression raw)
      by_parse (err x) p e = cc e
      by_parse (ok x) p e = (x, p, check_match-HasMatch x.name at (lookup x.name predicates) e)

  named_step :
      (in_watch : Bool) (kind name : String) (at : JsonPath)
      → body_only in_watch kind at (resolve_step_name predicates name (key at "predicate")) ≡ ok tt
      → (in_watch ≡ false) × IsKnown name
  unfolding resolve_step_name
  named_step in_watch kind name at e =
      let both = body_only-ok in_watch kind at _ e in
      (both.0, resolve_as-IsKnown unknown_predicate_name name (key at "predicate") both.1)

  step-IsSound :
      (in_watch : Bool) (s : Step) (at : JsonPath)
      → validate_step predicates in_watch s at ≡ ok tt
      → StepIsSound in_watch s
  unfolding validate_step resolve_step_name
  step-IsSound in_watch (Step.move t) at e = target-IsSound t (key at "at") e
  step-IsSound in_watch (Step.click t button) at e = target-IsSound t (key at "at") e
  step-IsSound in_watch (Step.scroll t dx dy) at e = target-IsSound t (key at "at") e
  step-IsSound in_watch (Step.type_text text) at e = tt
  step-IsSound in_watch (Step.key k modifiers) at e = tt
  step-IsSound in_watch (Step.wait_for name ms policy) at e =
      named_step in_watch "wait_for" name at e
  step-IsSound in_watch (Step.assert name policy) at e = named_step in_watch "assert" name at e
  step-IsSound in_watch (Step.sleep_ms ms) at e = (body_only-ok in_watch "sleep_ms" at (ok tt) e).0

  pub steps-IsSound :
      (in_watch : Bool) (i : ℕ) (steps : List Step) (base : JsonPath)
      → validate_steps predicates in_watch i steps base ≡ ok tt
      → All (StepIsSound in_watch) steps
  unfolding validate_steps
  steps-IsSound in_watch i [] base e = tt
  steps-IsSound in_watch i (s ∷ steps) base e =
      let both = then_check-ok (validate_step predicates in_watch s (index base i)) _ e in
      (
        step-IsSound in_watch s (index base i) both.0,
        steps-IsSound in_watch (suc i) steps base both.1,
      )

  when_sound :
      (when : WatchWhen) (at : JsonPath)
      → validate_watch_when predicates when at ≡ some (ok tt)
      → WhenIsSound when
  unfolding validate_watch_when
  when_sound (WatchWhen.by_name name) at e =
      resolve_as-IsKnown unknown_watch_name name at (some-ok _ e)
  when_sound (WatchWhen.inline p) at e = watch_when-IsNamed predicates p at e

  lifetime_sound :
      (l : Lifetime) (at : JsonPath) → validate_lifetime predicates l at ≡ ok tt → LifetimeIsSound l
  unfolding validate_lifetime
  lifetime_sound Lifetime.one_shot at e = tt
  lifetime_sound Lifetime.persistent at e = tt
  lifetime_sound (Lifetime.timeout_ms ms) at e = tt
  lifetime_sound (Lifetime.until_predicate name) at e =
      resolve_as-IsKnown unknown_predicate_name name (key at "name") e

  pub trigger_sound : (t : Trigger) → validate_trigger predicates t ≡ ok tt → TriggerIsSound t
  unfolding validate_trigger
  trigger_sound Trigger.on_submit e = tt
  trigger_sound Trigger.manual e = tt
  trigger_sound (Trigger.on_predicate name) e = resolve_as-IsKnown unknown_trigger_name name _ e

  watch-IsSound :
      (w : Watch) (at : JsonPath) → validate_watch predicates w at ≡ some (ok tt) → WatchIsSound w
  unfolding validate_watch
  watch-IsSound w at e =
      let both =
        and_check-ok
          (validate_watch_when predicates w.when (key at "when")
            and_check some (validate_steps predicates true 0 w.steps (key at "do")))
          _ e in
      let first = and_check-ok (validate_watch_when predicates w.when (key at "when")) _ both.0 in
      record {
        when = when_sound w.when (key at "when") first.0;
        steps = steps-IsSound true 0 w.steps (key at "do") (some-ok _ first.1);
        lifetime = lifetime_sound w.lifetime (key at "lifetime") (some-ok _ both.1);
      }

  pub watches-IsSound :
      (i : ℕ) (watches : List Watch)
      → validate_watches predicates i watches ≡ some (ok tt)
      → All WatchIsSound watches
  unfolding validate_watches
  watches-IsSound i [] e = tt
  watches-IsSound i (w ∷ watches) e =
      let both = and_check-ok (validate_watch predicates w (index (key root "watches") i)) _ e in
      (
        watch-IsSound w (index (key root "watches") i) both.0,
        watches-IsSound (suc i) watches both.1,
      )

pub record ProgramIsSound (program : Program) : Type 0 where
  pub predicates :
      All (λ entry. All (IsKnown program.predicates) (edges_of entry.1)) program.predicates
  pub trigger : TriggerIsSound program.predicates program.trigger
  pub watches : All (WatchIsSound program.predicates) program.watches
  pub body : All (StepIsSound program.predicates false) program.body

module _ (hash : PredicateKind → Result DslErrorKind String) where
  -- An accepted program has passed every check.
  pub finish-checks :
      (program : Program) (v : Validated)
      → finish hash program ≡ some (ok v)
      → checks hash program ≡ some (ok tt)
  unfolding finish
  finish-checks program v e = by_checks (checks hash program) e
    where
      by_checks :
          (c : Option Checked)
          → (elim c [
            | none ↦ none
            | some (err e) ↦ some (err e)
            | some (ok u) ↦
                some (with_hashes hash program (compute_predicate_hashes hash program.predicates))
          ])
            ≡ some (ok v)
          → c ≡ some (ok tt)
      by_checks none e = cc e
      by_checks (some (err x)) e = cc e
      by_checks (some (ok tt)) e = refl
