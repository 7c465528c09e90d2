-- ===== src/Perception/Evaluation/Totality.antt =====
-- The evaluation ends on a graph without cycles, and fails to end through an elapsed predicate that
-- reads itself.
use vcli.Prelude.{
  ℕ, zero, suc, ◌+◌, ◌≤◌, ◌<◌, String, ◌≡◌, refl, Bool, true, false, Option, none, some, List, [],
  ◌∷◌, arith, leb, if◌then◌else◌, All, All-map, lookup, Result, ok, err,
}
use vcli.Core.Predicate.{
  PredicateKind, template, color_at, pixel_diff, all_of, any_of, not_of, elapsed_ms_since_true,
  PredicateResult,
}
use vcli.Core.Program.{ProgramId}
use vcli.Perception.State.{PerceptionError, Perception, cached, Context}
use vcli.Perception.Evaluation.{
  Out, and_then, Leaf, eval_all_of, eval_any_of, eval_not, elapsed_in, eval_elapsed, dispatch,
  found, from_cache, memoized, evaluate_named_with_depth, evaluate_facade,
}

-- The names that the evaluation of a predicate reads.
abbrev pub reads_of : PredicateKind → List String
reads_of (all_of names) = names
reads_of (any_of names) = names
reads_of (not_of name) = name ∷ []
reads_of (elapsed_ms_since_true name ms) = name ∷ []
reads_of _ = []

-- A rank under which every predicate reads predicates of smaller rank only.
abbrev pub IsRanked : Context → (String → ℕ) → Type 0
IsRanked ctx rank =
    (name : String) (pred : PredicateKind)
    → lookup name ctx.predicates ≡ some pred
    → All (λ n. rank n < rank name) (reads_of pred)

abbrev pub Ends : Out → Type 0
Ends none = ⊥
Ends (some x) = Unit {0}

and_then-Ends :
    (out : Out) (next : PredicateResult → Perception → Out)
    → Ends out
    → ((r : PredicateResult) (p : Perception) → Ends (next r p))
    → Ends (and_then out next)
and_then-Ends none next h k = absurd h
and_then-Ends (some (err e, p)) next h k = tt
and_then-Ends (some (ok r, p)) next h k = k r p

if-Ends : (b : Bool) (x y : Out) → Ends x → Ends y → Ends (if b then x else y)
if-Ends true x y hx hy = hx
if-Ends false x y hx hy = hy

module _ (ctx : Context) (child : String → Perception → Out) where
  eval_all_of-Ends :
      (names : List String) (p : Perception)
      → All (λ n. (q : Perception) → Ends (child n q)) names
      → Ends (eval_all_of ctx child names p)
  unfolding eval_all_of
  eval_all_of-Ends [] p h = tt
  eval_all_of-Ends (name ∷ rest) p h =
      and_then-Ends (child name p) _ (h.0 p)
        (λ r q. if-Ends r.truthy _ _ (eval_all_of-Ends rest q h.1) tt)

  eval_any_of-Ends :
      (names : List String) (p : Perception)
      → All (λ n. (q : Perception) → Ends (child n q)) names
      → Ends (eval_any_of ctx child names p)
  unfolding eval_any_of
  eval_any_of-Ends [] p h = tt
  eval_any_of-Ends (name ∷ rest) p h =
      and_then-Ends (child name p) _ (h.0 p)
        (λ r q. if-Ends r.truthy _ _ tt (eval_any_of-Ends rest q h.1))

  elapsed-Ends :
      (program : Option ProgramId) (name : String) (ms : ℕ) (p : Perception)
      → ((q : Perception) → Ends (child name q))
      → Ends (elapsed_in ctx child program name ms p)
  elapsed-Ends none name ms p h = tt
  elapsed-Ends (some program) name ms p h =
      and_then-Ends (child name p) _ (h p) (λ r q. if-Ends r.truthy _ _ tt tt)

module _ (hash : PredicateKind → Result PerceptionError String) (leaf : Leaf) (ctx : Context) where
  dispatch-Ends :
      (child : String → ℕ → Perception → Out) (pred : PredicateKind) (depth : ℕ) (p : Perception)
      → All (λ n. (d : ℕ) (q : Perception) → Ends (child n d q)) (reads_of pred)
      → Ends (dispatch hash leaf ctx child pred depth p)
  unfolding dispatch eval_not eval_elapsed
  dispatch-Ends child (all_of names) depth p h =
      eval_all_of-Ends ctx _ names p (All-map names (λ n ends q. ends depth q) h)
  dispatch-Ends child (any_of names) depth p h =
      eval_any_of-Ends ctx _ names p (All-map names (λ n ends q. ends depth q) h)
  dispatch-Ends child (not_of name) depth p h =
      and_then-Ends (child name depth p) _ (h.0 depth p) (λ r q. tt)
  dispatch-Ends child (elapsed_ms_since_true name ms) depth p h =
      elapsed-Ends ctx (λ n q. child n 0 q) ctx.program name ms p (h.0 0)
  dispatch-Ends child (template image confidence region throttle) depth p h = tt
  dispatch-Ends child (color_at point rgb tolerance) depth p h = tt
  dispatch-Ends child (pixel_diff region baseline threshold) depth p h = tt

  from_cache-Ends :
      (h : String) (p : Perception) (out : Out) (hit : Option PredicateResult)
      → Ends out
      → Ends (from_cache hash leaf h p out hit)
  from_cache-Ends h p out none ends = and_then-Ends out _ ends (λ r q. tt)
  from_cache-Ends h p out (some r) ends = tt

  memoized-Ends :
      (h : Result PerceptionError String) (p : Perception) (out : Out)
      → Ends out
      → Ends (memoized hash leaf h p out)
  memoized-Ends (err e) p out ends = tt
  memoized-Ends (ok key) p out ends = from_cache-Ends key p out (cached p key) ends

  found-Ends :
      (name : String) (p : Perception) (x : Option PredicateKind) (next : PredicateKind → Out)
      → ((pred : PredicateKind) → x ≡ some pred → Ends (next pred))
      → Ends (found name p x next)
  found-Ends name p none next h = tt
  found-Ends name p (some pred) next h = h pred refl

  with_depth-Ends :
      (rank : String → ℕ) (fuel : ℕ) (name : String) (depth : ℕ) (p : Perception)
      → IsRanked ctx rank
      → rank name < fuel
      → Ends (evaluate_named_with_depth hash leaf fuel ctx name depth p)
  unfolding evaluate_named_with_depth
  with_depth-Ends rank zero name depth p ranked low = absurd (omega (arith, low))
  with_depth-Ends rank (suc fuel) name depth p ranked low = if-Ends (leb 32 depth) _ _ tt (
      found-Ends name p (lookup name ctx.predicates) _ (λ pred e. memoized-Ends (hash pred) p _ (
        dispatch-Ends _ pred (depth + 1) p (
          All-map (reads_of pred)
            (λ n less d q. with_depth-Ends rank fuel n d q ranked (omega (arith, less, low)))
            (ranked name pred e)))))

  -- On a graph without cycles, told by a rank, the evaluation ends, with a result or an error:
  -- fuel of the rank of the name is enough.
  pub facade-Ends :
      (rank : String → ℕ) (fuel : ℕ) (name : String) (p : Perception)
      → IsRanked ctx rank
      → rank name ≤ fuel
      → Ends (evaluate_facade hash leaf fuel ctx name p)
  unfolding evaluate_facade
  facade-Ends rank fuel name p ranked low =
      found-Ends name p (lookup name ctx.predicates) _ (λ pred e. memoized-Ends (hash pred) p _ (
        dispatch-Ends _ pred 0 p (
          All-map (reads_of pred)
            (λ n less d q. with_depth-Ends rank fuel n d q ranked (omega (arith, less, low)))
            (ranked name pred e))))

  elapsed-none :
      (child : String → Perception → Out) (x : Option ProgramId) (program : ProgramId)
      (name : String) (ms : ℕ) (p : Perception)
      → x ≡ some program
      → child name p ≡ none
      → elapsed_in ctx child x name ms p ≡ none
  elapsed-none child x program name ms p hx h = rw (hx, h) refl

  -- The guard on the depth does not stop a cycle through an elapsed predicate: one that reads
  -- itself does not end, whatever the fuel, for a program whose cache does not hold it yet.
  pub elapsed_cycle :
      (program : ProgramId) (name : String) (ms : ℕ) (key : String) (p : Perception)
      → ctx.program ≡ some program
      → lookup name ctx.predicates ≡ some (elapsed_ms_since_true name ms)
      → hash (elapsed_ms_since_true name ms) ≡ ok key
      → cached p key ≡ none
      → (fuel : ℕ) → evaluate_named_with_depth hash leaf fuel ctx name 0 p ≡ none
  unfolding evaluate_named_with_depth dispatch eval_elapsed
  elapsed_cycle program name ms key p hp hn hk hc zero = refl
  elapsed_cycle program name ms key p hp hn hk hc (suc fuel) =
      let stuck =
        elapsed-none (λ n q. evaluate_named_with_depth hash leaf fuel ctx n 0 q) ctx.program program
          name ms p hp (elapsed_cycle program name ms key p hp hn hk hc fuel) in
      rw (hn, hk, memoized, hc, stuck) refl
