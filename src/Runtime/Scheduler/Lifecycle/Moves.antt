-- ===== src/Runtime/Scheduler/Lifecycle/Moves.antt =====
-- The moves of the program state machine that a tick may make, and how changes of the table make
-- them.
use mathlib.Core.Option.{some-injective}
use vcli.Prelude.{
  ◌≡◌, refl, sym, ◌∙◌, ap, inl, inr, Bool, true, ◌||◌, Option, none, some, arith, ◌==◌,
  if◌then◌else◌, ==_iff, Bool-cases, get, get-adjust, subst,
}
use vcli.Core.State.{
  ProgramState, pending, waiting, running, blocked, completed, failed, cancelled, is_terminal,
  state_eq, state_eq_self, state_eq→eq,
}
use vcli.Core.Program.{ProgramId}
use vcli.Core.Program.{ProgramId}
use vcli.Runtime.Program.{RunningProgram}
use vcli.Runtime.Scheduler.State.{Scheduler, change}
use vcli.Runtime.Scheduler.Log.{state_in, state_of}

-- The specification: a waiting program may start or fail, a running one may complete or fail, and
-- both may happen in one tick.
abbrev pub may_move : ProgramState → ProgramState → Bool
may_move waiting v =
    state_eq waiting v || state_eq running v || state_eq completed v || state_eq failed v
may_move running v = state_eq running v || state_eq completed v || state_eq failed v
may_move u v = state_eq u v

abbrev pub Moved : Option ProgramState → Option ProgramState → Type 0
Moved none none = Unit {0}
Moved none (some v) = ⊥
Moved (some u) none = ⊥
Moved (some u) (some v) = may_move u v ≡ true

may_move_self : (u : ProgramState) → may_move u u ≡ true
may_move_self waiting = refl
may_move_self running = refl
may_move_self u = state_eq_self u

pub Moved-refl : (x : Option ProgramState) → Moved x x
Moved-refl none = tt
Moved-refl (some u) = may_move_self u

may_move_trans :
    (u v w : ProgramState) → may_move u v ≡ true → may_move v w ≡ true → may_move u w ≡ true
may_move_trans waiting v w p q = ground arith
may_move_trans running v w p q = ground arith
may_move_trans _ v w p q = ground arith

pub Moved-trans : (x y z : Option ProgramState) → Moved x y → Moved y z → Moved x z
Moved-trans none none none p q = tt
Moved-trans none none (some w) p q = q
Moved-trans none (some v) z p q = absurd p
Moved-trans (some u) none z p q = absurd p
Moved-trans (some u) (some v) none p q = q
Moved-trans (some u) (some v) (some w) p q = may_move_trans u v w p q

-- Every program moves as it may.
pub record AllMoved (s t : Scheduler) : Type 0 where
  pub at_id : (j : ProgramId) → Moved (state_of j s) (state_of j t)

pub AllMoved-refl : (s : Scheduler) → AllMoved s s
AllMoved-refl s = record { at_id = λ j. Moved-refl (state_of j s) }

pub AllMoved-trans : (s t u : Scheduler) → AllMoved s t → AllMoved t u → AllMoved s u
AllMoved-trans s t u p q = record {
  at_id = λ j. Moved-trans (state_of j s) (state_of j t) (state_of j u) (p.at_id j) (q.at_id j);
}

pub state_of-change :
    (k j : ProgramId) (f : RunningProgram → RunningProgram) (s : Scheduler) (rp : RunningProgram)
    → get k s.programs ≡ some rp
    → state_of j (change k f s) ≡ (if k == j then some (f rp).state else state_of j s)
unfolding change
state_of-change k j f s rp e = ground (arith, get-adjust k j f s.programs)

pub Moved-some :
    {x y : Option ProgramState} {u v : ProgramState}
    → x ≡ some u
    → y ≡ some v
    → may_move u v ≡ true
    → Moved x y
Moved-some p q h = rw (p, q) h

pub Moved-same : {x y : Option ProgramState} → y ≡ x → Moved x y
Moved-same {x} p = rw p (Moved-refl x)

-- A change of one program that is in the table.
pub change-AllMoved :
    (k : ProgramId) (f : RunningProgram → RunningProgram) (s : Scheduler) (rp : RunningProgram)
    → get k s.programs ≡ some rp
    → may_move rp.state (f rp).state ≡ true
    → AllMoved s (change k f s)
change-AllMoved k f s rp e allowed = record {
  at_id = λ j. elim (Bool-cases (k == j)) [
    | inl same ↦
        Moved-some {v = (f rp).state} (ap state_in (at_j j same)) (ground (arith, moves j)) allowed
    | inr other ↦ Moved-same (ground (arith, moves j))
  ];
}
  where
    moves :
        (j : ProgramId)
        → state_of j (change k f s) ≡ (if k == j then some (f rp).state else state_of j s)
    moves j = state_of-change k j f s rp e

    at_j : (j : ProgramId) → (k == j) ≡ true → get j s.programs ≡ some rp
    at_j j h = rw (← (==_iff k j).0 h) e

-- What leaves the table alone moves nothing.
pub AllMoved-programs : (s t : Scheduler) → t.programs ≡ s.programs → AllMoved s t
AllMoved-programs s t e = record { at_id = λ j. Moved-same (ap (λ m. state_in (get j m)) e) }

-- A change of the state of a program, reported or not.
pub entered-AllMoved :
    (k : ProgramId) (f : RunningProgram → RunningProgram) (s u : Scheduler) (rp : RunningProgram)
    → get k s.programs ≡ some rp
    → may_move rp.state (f rp).state ≡ true
    → u.programs ≡ (change k f s).programs
    → AllMoved s u
entered-AllMoved k f s u rp e allowed same =
    AllMoved-trans s (change k f s) u (change-AllMoved k f s rp e allowed)
      (AllMoved-programs (change k f s) u same)

-- The program that the table holds is in the state that it has there.
pub held_state :
    (k : ProgramId) (s : Scheduler) (rp : RunningProgram) (u : ProgramState)
    → get k s.programs ≡ some rp
    → state_of k s ≡ some u
    → rp.state ≡ u
held_state k s rp u e h = some-injective rp.state u (sym (ap state_in e) ∙ h)

may_move-final : (u v : ProgramState) → is_terminal u ≡ true → may_move u v ≡ true → v ≡ u
may_move-final completed v h m = sym (state_eq→eq completed v m)
may_move-final failed v h m = sym (state_eq→eq failed v m)
may_move-final cancelled v h m = sym (state_eq→eq cancelled v m)
may_move-final pending v h m = cc h
may_move-final waiting v h m = cc h
may_move-final running v h m = cc h
may_move-final blocked v h m = cc h

-- Nothing moves out of a terminal state.
pub Moved-final :
    {x y : Option ProgramState} (u : ProgramState)
    → is_terminal u ≡ true
    → x ≡ some u
    → Moved x y
    → y ≡ some u
Moved-final {y = none} u done at m = absurd (subst (λ z. Moved z none) at m)
Moved-final {y = some v} u done at m =
    ap some (may_move-final u v done (subst (λ z. Moved z (some v)) at m))
