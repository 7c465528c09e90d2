-- ===== src/Runtime/Scheduler/Commands/States.antt =====
-- What a command does to the state of each program.
use vcli.Prelude.{
  ◌≡◌, refl, ap, subst, inl, inr, Option, none, some, arith, ◌==◌, if◌then◌else◌, ==_iff,
  Bool-cases, Option-cases, Assoc, get, put, get-put, get-adjust,
}
use vcli.Core.State.{ProgramState, waiting, running, cancelled}
use vcli.Core.Program.{ProgramId}
use vcli.Runtime.Program.{RunningProgram, pending_with_assets, SchedulerCommand}
use vcli.Runtime.World.{Env}
use vcli.Runtime.Scheduler.State.{Scheduler, report, change, enter}
use vcli.Runtime.Scheduler.Log.{state_in, state_of}
use vcli.Runtime.Program.{submit_validated, cancel, start, resume_running, shutdown}
use vcli.Runtime.Scheduler.Commands.{obey}

-- The state that a command is to give to the program of an id that is in the table.
abbrev pub if_held : ProgramState → Option ProgramState → Option ProgramState
if_held u none = none
if_held u (some v) = some u

-- The specification, on the states alone.
abbrev pub commanded : ProgramId → SchedulerCommand → Option ProgramState → Option ProgramState
commanded j (submit_validated k program assets) x = if k == j then some waiting else x
commanded j (cancel k reason) x = if k == j then if_held cancelled x else x
commanded j (start k) x = if k == j then if_held running x else x
commanded j (resume_running k from_step program assets) x = if k == j then some running else x
commanded j shutdown x = x

-- A change of the program of `k` to a fixed state, or nothing if it is not held.
held-change :
    (k j : ProgramId) (f : RunningProgram → RunningProgram) (u : ProgramState) (s : Scheduler)
    → ((rp : RunningProgram) → (f rp).state ≡ u)
    → state_of j (change k f s) ≡ (if k == j then if_held u (state_of j s) else state_of j s)
unfolding change
held-change k j f u s to = elim (Option-cases (get j s.programs)) [
  | inl e ↦ ground (arith, get-adjust k j f s.programs)
  | inr (rp, e) ↦ ground (arith, get-adjust k j f s.programs, to rp)
]

get-change-none :
    (k j : ProgramId) (u : ProgramState) (s : Scheduler)
    → get k s.programs ≡ none
    → state_of j s ≡ (if k == j then if_held u (state_of j s) else state_of j s)
get-change-none k j u s e = elim (Bool-cases (k == j)) [
  | inl same ↦
      rw (same, ap state_in (subst (λ i. get i s.programs ≡ none) ((==_iff k j).0 same) e)) refl
  | inr other ↦ rw other refl
]

state_in-put :
    (k j : ProgramId) (rp : RunningProgram) (m : Assoc RunningProgram)
    → state_in (get j (put k rp m)) ≡ (if k == j then some rp.state else state_in (get j m))
state_in-put k j rp m = ground (arith, get-put k j rp m)

module _ (env : Env) where
  -- A command gives one program the state that it is for, whatever state the program was in, also
  -- a finished one, and leaves the states of all others: a submission adds a waiting program or
  -- replaces the one of its id, a resume adds or replaces a running one, a start or a cancel acts
  -- on a program that is in the table, and a shutdown does nothing to them.
  pub obey-states :
      (c : SchedulerCommand) (s : Scheduler) (j : ProgramId)
      → state_of j (obey env c s) ≡ commanded j c (state_of j s)
  unfolding obey report
  obey-states (submit_validated k program assets) s j =
      state_in-put k j (enter waiting (pending_with_assets program assets)) s.programs
  obey-states (cancel k reason) s j = elim (Option-cases (get k s.programs)) [
    | inl e ↦ rw e (get-change-none k j cancelled s e)
    | inr (rp, e) ↦ rw e (held-change k j (enter cancelled) cancelled s (λ p. refl))
  ]
  obey-states (start k) s j = elim (Option-cases (get k s.programs)) [
    | inl e ↦ rw e (get-change-none k j running s e)
    | inr (rp, e) ↦ rw e (held-change k j _ running _ (λ p. refl))
  ]
  obey-states (resume_running k from_step program assets) s j = state_in-put k j _ s.programs
  obey-states shutdown s j = refl
