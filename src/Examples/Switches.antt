-- ===== src/Examples/Switches.antt =====
-- crates/vcli-input/src/kill_switch.rs, mock.rs on concrete data.
use vcli.Prelude.{ℕ, ◌≡◌, refl, Bool, true, none, some, [], arith, ◌==◌, err}
use vcli.Input.KillSwitch.{not_engaged, engage, wait_until_engaged}
use vcli.Input.KillSwitch.Waiting.{StopsAt, wait-ends}
use vcli.Input.Mock.{MockInputSink, halted, SinkCall, call}

-- The switch is set in the round 3.
abbrev in_round_three : ℕ → Bool
in_round_three k = k == 3

-- A second engagement keeps the time of the first one.
first_time : engage 9 (engage 7 not_engaged) ≡ record { engaged = true; engaged_at_ns = 7 }
unfolding engage
first_time = refl

abbrev stopped_sink : MockInputSink
stopped_sink = record {
  log = [];
  kill = record { engaged = true; engaged_at_ns = 7 };
  forced_error = none;
}

no_typing : call (SinkCall.type_text "x") stopped_sink ≡ (err halted, stopped_sink)
unfolding call
no_typing = refl

wait-ends_example :
    (j : ℕ) × (wait_until_engaged in_round_three (λ k. k) 5 6 0 ≡ some (in_round_three j))
    × StopsAt in_round_three (λ k. k) 5 0 j
wait-ends_example = wait-ends in_round_three (λ k. k) 5 (λ k. omega arith)
