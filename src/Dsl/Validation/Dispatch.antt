-- ===== src/Dsl/Validation/Dispatch.antt =====
-- The steps of an accepted watch in crates/vcli-runtime/src/body.rs.
use vcli.Prelude.{
  String, ◌≡◌, Bool, true, false, Option, none, some, str_eq, if◌then◌else◌, All, All-map, Dict,
  Result, ok, err, ◌>>=◌, ok_or,
}
use vcli.Core.Predicate.{Point, PredicateKind, PredicateResult}
use vcli.Core.Program.{Target, Step, Program}
use vcli.Perception.State.{PerceptionError, Context}
use vcli.Runtime.Error.{RuntimeError}
use vcli.Runtime.Expr.{
  ParsedExpr, Accessor, match_center, match_bbox, parse, accessor_of, strip_dollar, split_dot,
  resolve_center, resolve_bbox,
}
use vcli.Runtime.World.{Env, World, InputCall, send, answer}
use vcli.Runtime.Body.{
  lift_error, evaluate_named, access, resolve_parsed, resolve_target, call_at, act_at,
  dispatch_action,
}
use vcli.Dsl.Error.{DslErrorKind}
use vcli.Dsl.Validation.{Validated, finish}
use vcli.Dsl.Validation.Sound.{StepIsSound}
use vcli.Dsl.Validation.Promises.{finish-IsSound}

-- The errors of the input, of the perception and of an expression, and no other.
abbrev pub IsExternalError : RuntimeError → Type 0
IsExternalError (RuntimeError.input m) = Unit {0}
IsExternalError (RuntimeError.perception m) = Unit {0}
IsExternalError (RuntimeError.expression_unresolved m) = Unit {0}
IsExternalError _ = ⊥

abbrev pub IsExternal {ℓ} : {A : Type ℓ} → Result RuntimeError A → Type 0
IsExternal (ok a) = Unit {0}
IsExternal (err e) = IsExternalError e

module _ {ℓ κ} {A : Type ℓ} {B : Type κ} where
  bind-IsExternal :
      (r : Result RuntimeError A) (f : A → Result RuntimeError B)
      → IsExternal r
      → ((a : A) → IsExternal (f a))
      → IsExternal (r >>= f)
  bind-IsExternal (ok a) f h k = k a
  bind-IsExternal (err e) f h k = h

ok_or-IsExternal {ℓ} :
    {A : Type ℓ} (o : Option A) (m : String)
    → IsExternal (ok_or o (RuntimeError.expression_unresolved m))
ok_or-IsExternal none m = tt
ok_or-IsExternal (some a) m = tt

if-IsExternal {ℓ} :
    {A : Type ℓ} (b : Bool) (x y : Result RuntimeError A)
    → IsExternal x
    → IsExternal y
    → IsExternal (if b then x else y)
if-IsExternal true x y hx hy = hx
if-IsExternal false x y hx hy = hy

parse-IsExternal : (s : String) → IsExternal (parse s)
unfolding parse
parse-IsExternal s =
    bind-IsExternal (ok_or (strip_dollar s) _) _ (ok_or-IsExternal (strip_dollar s) _) (λ rest.
      bind-IsExternal (ok_or (split_dot rest) _) _ (ok_or-IsExternal (split_dot rest) _) (λ parts.
        if-IsExternal (str_eq parts.0 "") _ _ tt (
          bind-IsExternal (accessor_of parts.1) _
            (if-IsExternal (str_eq parts.1 "match.center") _ _ tt
              (if-IsExternal (str_eq parts.1 "match.bbox") _ _ tt tt))
            (λ a. tt))))

module _ (env : Env) (ctx : Context) where
  access-IsExternal : (a : Accessor) (r : PredicateResult) → IsExternal (access env ctx a r)
  unfolding resolve_center resolve_bbox
  access-IsExternal match_center r =
      bind-IsExternal (ok_or r.match_data _) _ (ok_or-IsExternal r.match_data _) (λ md. tt)
  access-IsExternal match_bbox r =
      bind-IsExternal (resolve_bbox r) _
        (bind-IsExternal (ok_or r.match_data _) _ (ok_or-IsExternal r.match_data _) (λ md. tt))
        (λ b. tt)

  lift_error-IsExternal :
      (r : Result PerceptionError PredicateResult) → IsExternal (lift_error env ctx r)
  lift_error-IsExternal (ok r) = tt
  lift_error-IsExternal (err e) = tt

  resolve_parsed-IsExternal :
      (r : Result RuntimeError ParsedExpr) (w : World)
      → IsExternal r
      → IsExternal (resolve_parsed env ctx r w).0
  unfolding evaluate_named
  resolve_parsed-IsExternal (err e) w h = h
  resolve_parsed-IsExternal (ok e) w h =
      bind-IsExternal (lift_error env ctx (env.evaluate e.predicate ctx w.perception).0) _
        (lift_error-IsExternal (env.evaluate e.predicate ctx w.perception).0)
        (access-IsExternal e.accessor)

  resolve_target-IsExternal : (t : Target) (w : World) → IsExternal (resolve_target env ctx t w).0
  unfolding resolve_target
  resolve_target-IsExternal (Target.absolute p) w = tt
  resolve_target-IsExternal (Target.expression s) w =
      resolve_parsed-IsExternal (parse s) w (parse-IsExternal s)

  send-IsExternal : (call : InputCall) (w : World) → IsExternal (send env call w).0
  unfolding send
  send-IsExternal call w = answered (env.respond w.inputs call)
    where
      answered : (o : Option String) → IsExternal (answer env o)
      answered none = tt
      answered (some e) = tt

  call_at-IsExternal :
      (call : Point → InputCall) (r : Result RuntimeError Point) (w : World)
      → IsExternal r
      → IsExternal (call_at env ctx call r w).0
  call_at-IsExternal call (ok p) w h = send-IsExternal (call p) w
  call_at-IsExternal call (err e) w h = h

  act_at-IsExternal :
      (t : Target) (call : Point → InputCall) (w : World) → IsExternal (act_at env ctx t call w).0
  unfolding act_at
  act_at-IsExternal t call w =
      call_at-IsExternal call (resolve_target env ctx t w).0 (resolve_target env ctx t w).1
        (resolve_target-IsExternal t w)

  dispatch_action-IsExternal :
      (predicates : Dict PredicateKind) (s : Step) (w : World)
      → StepIsSound predicates true s
      → IsExternal (dispatch_action env ctx s w).0
  unfolding dispatch_action
  dispatch_action-IsExternal predicates (Step.move t) w h = act_at-IsExternal t _ w
  dispatch_action-IsExternal predicates (Step.click t button) w h = act_at-IsExternal t _ w
  dispatch_action-IsExternal predicates (Step.scroll t dx dy) w h = act_at-IsExternal t _ w
  dispatch_action-IsExternal predicates (Step.type_text text) w h = send-IsExternal _ w
  dispatch_action-IsExternal predicates (Step.key k modifiers) w h = send-IsExternal _ w
  dispatch_action-IsExternal predicates (Step.wait_for name ms policy) w h = cc (h.0)
  dispatch_action-IsExternal predicates (Step.assert name policy) w h = cc (h.0)
  dispatch_action-IsExternal predicates (Step.sleep_ms ms) w h = cc h

  -- Wherever a step of a watch of an accepted program is dispatched as an action, the only errors
  -- it can end in are those of the input, of the perception and of an unresolved expression: never
  -- the internal error for a step that only a body may hold, nor any other.
  pub finish-IsExternal :
      (hash : PredicateKind → Result DslErrorKind String) (program : Program) (v : Validated)
      → finish hash program ≡ some (ok v)
      → All
          (λ watch. All (λ s. (w : World) → IsExternal (dispatch_action env ctx s w).0) watch.steps)
          program.watches
  finish-IsExternal hash program v e =
      All-map program.watches
        (λ watch sound.
          All-map watch.steps
            (λ s step_sound w. dispatch_action-IsExternal program.predicates s w step_sound)
            sound.steps)
        (finish-IsSound hash program v e).watches
