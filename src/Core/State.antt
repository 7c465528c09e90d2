-- ===== src/Core/State.antt =====
-- crates/vcli-core/src/state.rs: the lifecycle state of a program and its text form.
use vcli.Prelude.{
  String, Bool, true, false, Option, none, some, ◌≡◌, refl, str_eq, if◌then◌else◌, arith,
}

pub data ProgramState : Type 0 where
  pending waiting running blocked completed failed cancelled : ProgramState

abbrev pub is_terminal : ProgramState → Bool
is_terminal completed = true
is_terminal failed = true
is_terminal cancelled = true
is_terminal _ = false

abbrev pub is_active : ProgramState → Bool
is_active waiting = true
is_active running = true
is_active blocked = true
is_active _ = false

-- `==` of the derived `PartialEq`.
abbrev pub state_eq : ProgramState → ProgramState → Bool
state_eq pending pending = true
state_eq waiting waiting = true
state_eq running running = true
state_eq blocked blocked = true
state_eq completed completed = true
state_eq failed failed = true
state_eq cancelled cancelled = true
state_eq _ _ = false

unfoldable pub as_str : ProgramState → String
as_str pending = "pending"
as_str waiting = "waiting"
as_str running = "running"
as_str blocked = "blocked"
as_str completed = "completed"
as_str failed = "failed"
as_str cancelled = "cancelled"

-- `none` is `ProgramStateParseError`.
unfoldable pub from_str : String → Option ProgramState
from_str s =
    if str_eq s "pending"
    then some pending
    else if str_eq s "waiting"
    then some waiting
    else if str_eq s "running"
    then some running
    else if str_eq s "blocked"
    then some blocked
    else if str_eq s "completed"
    then some completed
    else if str_eq s "failed"
    then some failed
    else if str_eq s "cancelled"
    then some cancelled
    else none

-- What the column `state` holds is read back as the state that was written.
pub from_str-as_str : (s : ProgramState) → from_str (as_str s) ≡ some s
unfolding from_str as_str
from_str-as_str pending = refl
from_str-as_str waiting = refl
from_str-as_str running = refl
from_str-as_str blocked = refl
from_str-as_str completed = refl
from_str-as_str failed = refl
from_str-as_str cancelled = refl

pub state_eq_self : (s : ProgramState) → state_eq s s ≡ true
state_eq_self pending = refl
state_eq_self waiting = refl
state_eq_self running = refl
state_eq_self blocked = refl
state_eq_self completed = refl
state_eq_self failed = refl
state_eq_self cancelled = refl

pub state_eq→eq : (a b : ProgramState) → state_eq a b ≡ true → a ≡ b
state_eq→eq pending b h = ground arith
state_eq→eq waiting b h = ground arith
state_eq→eq running b h = ground arith
state_eq→eq blocked b h = ground arith
state_eq→eq completed b h = ground arith
state_eq→eq failed b h = ground arith
state_eq→eq cancelled b h = ground arith
