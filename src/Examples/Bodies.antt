-- ===== src/Examples/Bodies.antt =====
-- A body that sleeps and then waits for a spot of the screen.
use vcli.Prelude.{ℕ, some, List, [], ◌∷◌, pos}
use vcli.Core.Program.{OnTimeout, Step}
use vcli.Perception.State.{Context}
use vcli.Examples.Data.{screen}

abbrev at_time : ℕ → Context
at_time n = record {
  program = some 7;
  assets = [];
  frame = screen;
  predicates = [];
  now_ms = pos n;
}

abbrev nap : List Step
nap = Step.sleep_ms 50 ∷ Step.wait_for "spot" 100 OnTimeout.fail ∷ []
