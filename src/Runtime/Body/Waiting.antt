-- ===== src/Runtime/Body/Waiting.antt =====
-- crates/vcli-runtime/src/body.rs: how long a body waits.
use vcli.Prelude.{
  ℕ, ◌≡◌, refl, Bool, true, false, ◌||◌, none, some, List, arith, if◌then◌else◌, get_elem?, Result,
  ok, err, ℤ, pos, negsuc, ◌+ℤ◌, leb_ℤ, saturating_add,
}
use vcli.Core.Predicate.{PredicateResult}
use vcli.Core.Program.{OnTimeout, Step}
use vcli.Prelude.{InI64, clamp_i64}
use vcli.Perception.State.{Context}
use vcli.Runtime.Error.{RuntimeError}
use vcli.Runtime.Program.{BodyDefer}
use vcli.Runtime.World.{Env, World}
use vcli.Runtime.Body.{StepOutcome, advanced, stalled, begin_step, continue_step, step_once}

saturating_add-exact : (a b : ℤ) → InI64 (a +ℤ b) → saturating_add a b ≡ a +ℤ b
unfolding saturating_add
saturating_add-exact a b h = clamp (a +ℤ b) h
  where
    clamp : (z : ℤ) → InI64 z → clamp_i64 z ≡ z
    clamp (pos n) h = ground arith
    clamp (negsuc n) h = ground arith

-- Whether a wait is over.
abbrev pub goes_on : OnTimeout → Bool → Result RuntimeError PredicateResult → Bool
goes_on policy over (err e) = false
goes_on OnTimeout.fail over (ok r) = r.truthy
goes_on OnTimeout.continue over (ok r) = r.truthy || over
goes_on OnTimeout.retry over (ok r) = r.truthy || over

abbrev pub is_advanced : StepOutcome → Bool
is_advanced advanced = true
is_advanced _ = false

module _ (env : Env) (before after : Context) (body : List Step) (cursor ms : ℕ) (v w : World) where
  -- A sleep stalls its first tick and sends nothing, and at a later tick the body goes on exactly
  -- if the time has come, for a time that fits an `i64`.
  pub sleep_ms-waits :
      get_elem? body cursor ≡ some (Step.sleep_ms ms)
      → InI64 (before.now_ms +ℤ pos ms)
      → (d : BodyDefer) × (step_once env before body cursor none v ≡ (stalled, some d, v))
        × (step_once env after body cursor (some d) w ≡ (
            if leb_ℤ (before.now_ms +ℤ pos ms) after.now_ms
            then (advanced, none, w)
            else (stalled, some d, w)))
  unfolding step_once begin_step continue_step
  sleep_ms-waits e h =
      let wake = before.now_ms +ℤ pos ms in
      let exact = saturating_add-exact before.now_ms (pos ms) h in
      (BodyDefer.sleep wake, rw (e, exact) refl, refl)
