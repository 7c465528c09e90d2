-- ===== src/Runtime/World.antt =====
-- What the scheduler thread touches outside its own tables: the clock, the perception façade, the
-- input sink and the event channel (crates/vcli-runtime/src/{event,clock}.rs and
-- crates/vcli-input/src/sink.rs). The environment answers each call; the world keeps the history.
use vcli.Prelude.{ℕ, suc, String, Option, none, some, List, [], ◌∷◌, ◌++◌, Result, ok, err, ℤ}
use vcli.Core.Predicate.{Point}
use vcli.Core.Program.{Button, Modifier}
use vcli.Core.Event.{EventData, Event}
use vcli.Perception.State.{Perception, Evaluate}
use vcli.Runtime.Error.{RuntimeError, input}

-- The calls of `InputSink` that the runtime makes.
pub data InputCall : Type 0 where
  mouse_move : Point → InputCall
  click : Point → Button → List Modifier → ℕ → InputCall
  type_text : String → InputCall
  key_combo : List Modifier → String → InputCall

-- `clock` is the value of each read of the clock, `respond` what the operating system says to a
-- call after the earlier calls (`none` if it succeeds), and `evaluate` the perception façade.
pub record Env : Type 0 where
  pub clock : ℕ → ℤ
  pub respond : List InputCall → InputCall → Option String
  pub evaluate : Evaluate

pub record World : Type 0 where
  pub perception : Perception
  pub inputs : List InputCall
  pub reads : ℕ
  pub events : List Event

module _ (env : Env) where
  -- `clock.unix_ms()`
  unfoldable pub unix_ms : World → ℤ × World
  unix_ms w = (env.clock w.reads, record w { reads = suc w.reads })

  -- `EventEmitter::emit`; the receiver outlives the scheduler.
  unfoldable pub emit : EventData → World → World
  emit d w = record w {
    reads = suc w.reads;
    events = w.events ++ record { at = env.clock w.reads; content = d } ∷ [];
  }

  abbrev pub answer : Option String → Result RuntimeError (Unit {0})
  answer none = ok tt
  answer (some e) = err (input e)

  -- A call of the sink, its error turned into `RuntimeError::Input`.
  unfoldable pub send : InputCall → World → Result RuntimeError (Unit {0}) × World
  send call w = (answer (env.respond w.inputs call), record w { inputs = w.inputs ++ call ∷ [] })
