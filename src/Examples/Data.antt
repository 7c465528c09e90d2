-- ===== src/Examples/Data.antt =====
-- The data of the runs: one program that types a word and watches a spot of the screen.
use vcli.Prelude.{true, Option, none, some, List, [], ◌∷◌, ok, pos}
use vcli.Core.State.{ProgramState}
use vcli.Core.Predicate.{PredicateResult, bgra8, Frame}
use vcli.Core.Program.{Target, Step, Watch, ProgramId, Program}
use vcli.Core.Program.{persistent, by_name, on_submit, left}
use vcli.Perception.State.{fresh}
use vcli.Runtime.Program.{RunningProgram, SchedulerCommand, submit_validated}
use vcli.Store.Rows.{Store, ProgramRow}
use vcli.Runtime.World.{Env, World}
use vcli.Runtime.Scheduler.State.{Scheduler}

abbrev pub seen : PredicateResult
seen = record { truthy = true; match_data = none; at = pos 0 }

abbrev pub quiet_env : Env
quiet_env = record {
  clock = λ n. pos n;
  respond = λ before call. none;
  evaluate = λ name ctx p. (ok seen, p);
}

abbrev pub spot : Watch
spot = record {
  when = by_name "spot";
  steps = Step.click (Target.absolute (record { x = pos 1; y = pos 2 })) left ∷ [];
  throttle_ms = 100;
  lifetime = persistent;
}

abbrev pub typist : Program
typist = record {
  version = "1";
  name = "typist";
  id = none;
  trigger = on_submit;
  predicates = [];
  watches = spot ∷ [];
  body = Step.type_text "hi" ∷ [];
  on_complete = none;
  on_fail = none;
  timeout_ms = none;
  labels = [];
  priority = pos 0;
}

abbrev pub plain : Program
plain = record typist { watches = [] }

abbrev pub screen : Frame
screen = record {
  format = bgra8;
  bounds = record { x = pos 0; y = pos 0; w = pos 1; h = pos 1 };
  stride = 4;
  pixels = 0 ∷ 0 ∷ 0 ∷ 255 ∷ [];
  captured_at_ns = 0;
}

abbrev pub empty_world : World
empty_world = record { perception = fresh; inputs = []; reads = 0; events = [] }

abbrev pub empty_scheduler : Scheduler
empty_scheduler = record { programs = []; world = empty_world }

-- The program is submitted, and two frames are captured.
abbrev pub submission : List (List SchedulerCommand × Option Frame)
submission = (submit_validated 7 plain [] ∷ [], some screen) ∷ ([], some screen) ∷ []

abbrev pub held : ProgramState → Program → RunningProgram
held st program = record {
  program = program;
  assets = [];
  state = st;
  running_since_ms = some (pos 0);
  body_cursor = some 0;
  watch_state = [];
  resumed_from = none;
  body_state = none;
}

-- Two programs run and one has been cancelled.
abbrev pub three_programs : Scheduler
three_programs = record {
  programs =
      (1, held ProgramState.running typist)
      ∷ (2, held ProgramState.waiting plain)
      ∷ (3, held ProgramState.cancelled plain)
      ∷ [];
  world = empty_world;
}

abbrev pub row : ProgramId → ProgramState → ProgramRow
row k st = record {
  id = k;
  name = "typist";
  source_json = "{}";
  state = st;
  submitted_at = pos 0;
  started_at = none;
  finished_at = none;
  last_error_code = none;
  last_error_msg = none;
  labels_json = "{}";
  body_cursor = 3;
  body_entered_at = none;
}

abbrev pub one_row : Store
one_row = record {
  programs = row 7 ProgramState.running ∷ [];
  events = [];
  last_event_id = 0;
  program_assets = (7, "aa") ∷ [];
  assets =
      record { hash = "aa"; byte_len = 1; extension = some "png"; added_at = pos 0 }
      ∷ record { hash = "bb"; byte_len = 1; extension = none; added_at = pos 0 }
      ∷ [];
  blobs = ("aa", some "png") ∷ ("bb", none) ∷ ("cc", none) ∷ [];
}
