-- ===== src/Input/KillSwitch.antt =====
-- crates/vcli-input/src/kill_switch.rs: the flag that stops all input. The clones share one state.
use vcli.Prelude.{ℕ, zero, suc, Bool, true, false, Option, none, some, leb, ◌==◌, if◌then◌else◌}
pub mod Waiting

pub record KillSwitch : Type 0 where
  pub engaged : Bool
  pub engaged_at_ns : ℕ

abbrev pub not_engaged : KillSwitch
not_engaged = record { engaged = false; engaged_at_ns = 0 }

-- `compare_exchange(0, now_ns)` keeps the time of the first engagement.
unfoldable pub engage : ℕ → KillSwitch → KillSwitch
engage now_ns k = record {
  engaged = true;
  engaged_at_ns = if k.engaged_at_ns == 0 then now_ns else k.engaged_at_ns;
}

unfoldable pub disengage : KillSwitch → KillSwitch
disengage k = not_engaged

-- The loop of `KillSwitchObserver::wait_until_engaged` from its `i`-th round on, in at most `fuel`
-- rounds: what the flag and the clock are in each round is given.
module _ (engaged : ℕ → Bool) (now : ℕ → ℕ) (deadline : ℕ) where
  unfoldable pub wait_until_engaged : ℕ → ℕ → Option Bool
  wait_until_engaged zero i = none
  wait_until_engaged (suc fuel) i =
      let rest = wait_until_engaged fuel (suc i) in
      if engaged i then some true else if leb deadline (now i) then some false else rest
