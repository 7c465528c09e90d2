-- ===== src/Core/Program.antt =====
-- crates/vcli-core/src/{action,step,watch,trigger,program}.rs: the program document. A `ProgramId`
-- is the 128-bit number of its UUID, whose text form has the order of the number.
use vcli.Prelude.{ℕ, String, Option, List, Dict, ℤ}
use vcli.Core.Predicate.{Point, PredicateKind}

pub data Button : Type 0 where
  left right middle : Button

pub data Modifier : Type 0 where
  cmd shift alt ctrl : Modifier

pub data Target : Type 0 where
  absolute : Point → Target
  expression : String → Target

pub data OnTimeout : Type 0 where
  fail continue retry : OnTimeout

pub data OnFail : Type 0 where
  fail continue : OnFail

pub data Step : Type 0 where
  move : Target → Step
  click : Target → Button → Step
  type_text : String → Step
  key : String → List Modifier → Step
  scroll : Target → ℤ → ℤ → Step
  wait_for : String → ℕ → OnTimeout → Step
  assert : String → OnFail → Step
  sleep_ms : ℕ → Step

pub data WatchWhen : Type 0 where
  by_name : String → WatchWhen
  inline : PredicateKind → WatchWhen

pub data Lifetime : Type 0 where
  one_shot persistent : Lifetime
  until_predicate : String → Lifetime
  timeout_ms : ℕ → Lifetime

pub record Watch : Type 0 where
  pub when : WatchWhen
  pub steps : List Step
  pub throttle_ms : ℕ
  pub lifetime : Lifetime

pub data Trigger : Type 0 where
  on_submit : Trigger
  on_predicate : String → Trigger
  manual : Trigger

abbrev pub ProgramId : Type 0
ProgramId = ℕ

-- `on_complete` and `on_fail` hold the name to emit.
pub record Program : Type 0 where
  pub version : String
  pub name : String
  pub id : Option ProgramId
  pub trigger : Trigger
  pub predicates : Dict PredicateKind
  pub watches : List Watch
  pub body : List Step
  pub on_complete : Option String
  pub on_fail : Option String
  pub timeout_ms : Option ℕ
  pub labels : Dict String
  pub priority : ℤ
