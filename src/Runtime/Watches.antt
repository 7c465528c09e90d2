-- ===== src/Runtime/Watches.antt =====
-- crates/vcli-runtime/src/watches.rs: when a watch fires.
use vcli.Prelude.{
  ℕ, Bool, true, false, not, ◌||◌, Option, none, some, if◌then◌else◌, ℤ, pos, ltb_ℤ, saturating_sub,
}
use vcli.Core.Program.{Lifetime, Watch}
use vcli.Core.Program.{one_shot, timeout_ms}
use vcli.Runtime.Program.{WatchRuntime}
pub mod Firing

pub data WatchDecision : Type 0 where
  skip fire retire : WatchDecision

-- The test of `Lifetime::TimeoutMs`.
abbrev pub window_over : Lifetime → ℤ → ℤ → Bool
window_over (timeout_ms ms) now since = not (ltb_ℤ (saturating_sub now since) (pos ms))
window_over _ now since = false

-- The test of `last_fired_ms`.
abbrev pub throttled : Option ℤ → ℤ → ℕ → Bool
throttled none now ms = false
throttled (some last) now ms = ltb_ℤ (saturating_sub now last) (pos ms)

unfoldable pub decide : Watch → WatchRuntime → Bool → ℤ → ℤ → WatchDecision
decide watch state truthy_now now running_since =
    if state.retired
    then skip
    else if window_over watch.lifetime now running_since
    then retire
    else if state.last_truthy || not truthy_now
    then skip
    else if throttled state.last_fired_ms now watch.throttle_ms
    then skip
    else fire

abbrev pub is_one_shot : Lifetime → Bool
is_one_shot one_shot = true
is_one_shot _ = false

unfoldable pub after_fire : Watch → ℤ → WatchRuntime → WatchRuntime
after_fire watch now state = record state {
  last_fired_ms = some now;
  retired = if is_one_shot watch.lifetime then true else state.retired;
}
