-- ===== src/Perception/Evaluation/Elapsed.antt =====
-- The timer of an elapsed predicate: one evaluation against a description of it.
use vcli.Prelude.{
  ℕ, String, ◌≡◌, refl, sym, subst, Bool, true, false, Option, none, some, List, [], ◌∷◌, arith,
  eq_refl, if◌then◌else◌, ==_refl, ok, ℤ, pos, leb_ℤ, saturating_sub,
}
use vcli.Core.Predicate.{PredicateResult}
use vcli.Core.Program.{ProgramId}
use vcli.Perception.State.{
  ProgramPredKey, Perception, first_of, drop_key, first_true_at, set_first_true_at,
  clear_first_true_at, Context,
}
use vcli.Perception.Evaluation.{
  Out, and_then, verdict, first_or_now, while_true, elapsed_in, eval_elapsed,
}

-- The start of the child's run of true results, after one more result at `now`.
abbrev pub run_start : Bool → ℤ → Option ℤ → Option ℤ
run_start false now before = none
run_start true now none = some now
run_start true now (some t) = some t

-- Whether a run that began then has lasted `ms` milliseconds.
abbrev pub has_lasted : ℕ → ℤ → Option ℤ → Bool
has_lasted ms now none = false
has_lasted ms now (some t) = leb_ℤ (pos ms) (saturating_sub now t)

first_of-drop_key :
    (k : ProgramPredKey) (m : List (ProgramPredKey × ℤ)) → first_of k (drop_key k m) ≡ none
unfolding first_of drop_key
first_of-drop_key k [] = refl
first_of-drop_key k ((j, t) ∷ m) = ground (arith, first_of-drop_key k m)

first_true_at-set :
    (p : Perception) (k : ProgramPredKey) (now : ℤ)
    → first_true_at (set_first_true_at p k now) k ≡ run_start true now (first_true_at p k)
unfolding first_true_at set_first_true_at first_of
first_true_at-set p k now = noted (first_of k p.first_true) refl
  where
    noted :
        (x : Option ℤ)
        → first_of k p.first_true ≡ x
        → first_of k
            (elim x as (λ y. Perception) [
              | none ↦ record p { first_true = (k, now) ∷ p.first_true }
              | some t ↦ p
            ]).first_true
          ≡ run_start true now x
    noted none e = rw (==_refl k.program, eq_refl k.predicate) refl
    noted (some t) e = e

-- What one evaluation gives and leaves.
pub record IsTimed (ctx : Context) (key : ProgramPredKey) (ms : ℕ) (start : Option ℤ) (out : Out)
    : Type 0 where
  pub left : Perception
  pub result : out ≡ some (ok (verdict ctx (has_lasted ms ctx.now_ms start)), left)
  pub timer : first_true_at left key ≡ start

module _ (ctx : Context) (child : String → Perception → Out) where
  after_child :
      (key : ProgramPredKey) (ms : ℕ) (q : Perception) (t : Bool)
      → IsTimed ctx key ms (run_start t ctx.now_ms (first_true_at q key)) (
          if t
          then while_true ctx child key ms q
          else some (ok (verdict ctx false), clear_first_true_at q key))
  unfolding first_true_at clear_first_true_at
  after_child key ms q false = record {
    left = clear_first_true_at q key;
    result = refl;
    timer = first_of-drop_key key q.first_true;
  }
  after_child key ms q true =
      let set = first_true_at-set q key ctx.now_ms in
      record {
        left = set_first_true_at q key ctx.now_ms;
        result =
            lasted (first_true_at q key) (first_true_at (set_first_true_at q key ctx.now_ms) key)
              set;
        timer = set;
      }
    where
      state : Perception
      state = set_first_true_at q key ctx.now_ms

      out_of : Bool → Out
      out_of t = some (ok (verdict ctx t), state)

      lasted :
          (before after : Option ℤ)
          → after ≡ run_start true ctx.now_ms before
          → out_of (leb_ℤ (pos ms) (saturating_sub ctx.now_ms (first_or_now ctx child after)))
            ≡ out_of (has_lasted ms ctx.now_ms (run_start true ctx.now_ms before))
      lasted none after e = rw e refl
      lasted (some t) after e = rw e refl

  -- An elapsed predicate, evaluated for a program: the timer of its child starts with the first
  -- true result, keeps its start while the results are true, and is cleared by a false one; the
  -- predicate is true exactly if the timer has run for `ms` milliseconds.
  pub eval_elapsed-IsTimed :
      (program : ProgramId) (name : String) (ms : ℕ) (p q : Perception) (r : PredicateResult)
      → ctx.program ≡ some program
      → child name p ≡ some (ok r, q)
      → IsTimed ctx
          (record { program = program; predicate = name })
          ms
          (run_start r.truthy ctx.now_ms
            (first_true_at q (record { program = program; predicate = name })))
          (eval_elapsed ctx child name ms p)
  unfolding eval_elapsed
  eval_elapsed-IsTimed program name ms p q r hp hc =
      subst (λ x. IsTimed ctx key ms start (elapsed_in ctx child x name ms p)) (sym hp)
        (subst (λ out. IsTimed ctx key ms start (and_then out after)) (sym hc)
          (after_child key ms q r.truthy))
    where
      key : ProgramPredKey
      key = record { program = program; predicate = name }

      start : Option ℤ
      start = run_start r.truthy ctx.now_ms (first_true_at q key)

      after : PredicateResult → Perception → Out
      after s u =
          if s.truthy
          then while_true ctx child key ms u
          else some (ok (verdict ctx false), clear_first_true_at u key)
