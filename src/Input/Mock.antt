-- ===== src/Input/Mock.antt =====
-- crates/vcli-input/src/mock.rs, error.rs: the sink that records its calls and obeys the kill switch.
use vcli.Prelude.{
  ℕ, String, ◌≡◌, refl, true, Option, none, some, List, [], ◌∷◌, ◌++◌, if◌then◌else◌, Result, ok,
  err,
}
use vcli.Core.Predicate.{Point}
use vcli.Core.Program.{Button, Modifier}
use vcli.Input.KillSwitch.{KillSwitch}

pub data InputError : Type 0 where
  halted unimplemented : InputError
  permission_denied backend unknown_key invalid_argument : String → InputError

-- The calls of the trait `InputSink`; of a segment of a drag its end point.
pub data SinkCall : Type 0 where
  mouse_move : Point → SinkCall
  click : Point → Button → List Modifier → ℕ → SinkCall
  double_click : Point → Button → SinkCall
  drag : Point → List Point → Button → SinkCall
  type_text : String → SinkCall
  key_combo : List Modifier → String → SinkCall

pub record MockInputSink : Type 0 where
  pub log : List SinkCall
  pub kill : KillSwitch
  pub forced_error : Option String

unfoldable pub check : MockInputSink → Result InputError (Unit {0})
check m =
    if m.kill.engaged
    then err halted
    else elim m.forced_error [ none ↦ ok tt | some detail ↦ err (backend detail) ]

abbrev pub push : SinkCall → MockInputSink → MockInputSink
push c m = record m { log = m.log ++ c ∷ [] }

abbrev pub accept : SinkCall → MockInputSink → Result InputError (Unit {0}) × MockInputSink
accept (drag from [] button) m = (err (invalid_argument "drag segments must be non-empty"), m)
accept c m = (ok tt, push c m)

-- The methods of `impl InputSink for MockInputSink`.
unfoldable pub call : SinkCall → MockInputSink → Result InputError (Unit {0}) × MockInputSink
unfolding check
call c m = elim (check m) [ err e ↦ (err e, m) | ok u ↦ accept c m ]

-- `drain`
abbrev pub drain : MockInputSink → List SinkCall × MockInputSink
drain m = (m.log, record m { log = [] })

-- While the switch is engaged every call is refused and nothing is recorded.
pub call-halts :
    (c : SinkCall) (m : MockInputSink) → m.kill.engaged ≡ true → call c m ≡ (err halted, m)
unfolding call check
call-halts c m h = rw h refl
