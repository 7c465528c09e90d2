-- ===== src/Dsl/Predicates/Ending.antt =====
-- What an accepted map of predicates promises to the evaluation: it ends.
use vcli.Prelude.{◌<◌, String, ◌≡◌, subst, some, arith, length, All, Result, ok}
use vcli.Core.Predicate.{
  PredicateKind, template, color_at, pixel_diff, all_of, any_of, not_of, elapsed_ms_since_true,
}
use vcli.Perception.State.{PerceptionError, Perception, Context}
use vcli.Perception.Evaluation.{Leaf, evaluate_facade}
use vcli.Perception.Evaluation.Totality.{reads_of, IsRanked, Ends, facade-Ends}
use vcli.Dsl.Predicates.{names_of, edges_at, edges_of, validate_predicate_graph}
use vcli.Dsl.Predicates.Ranking.{rank_in, rank_in-le, Ordered-length, Ordered-lower}
use vcli.Dsl.Predicates.Accepted.{Ranked, accepted-Ranked, lookup-contains, length-names_of}

-- The evaluation reads only names that the search takes for edges.
reads-edges :
    (P : String → Type 0) (pred : PredicateKind) → All P (edges_of pred) → All P (reads_of pred)
reads-edges P (all_of of) h = h
reads-edges P (any_of of) h = h
reads-edges P (not_of of) h = h
reads-edges P (elapsed_ms_since_true name ms) h = h
reads-edges P (template image confidence region throttle) h = tt
reads-edges P (color_at point rgb tolerance) h = tt
reads-edges P (pixel_diff region baseline threshold) h = tt

Ranked-IsRanked : (ctx : Context) (r : Ranked ctx.predicates) → IsRanked ctx (rank_in r.done)
Ranked-IsRanked ctx r name pred e =
    reads-edges (λ n. rank_in r.done n < rank_in r.done name) pred
      (subst (λ p. All (λ n. rank_in r.done n < rank_in r.done name) (edges_at p)) e
        (Ordered-lower ctx.predicates r.done name r.ordered r.keys
          (r.all name (lookup-contains ctx.predicates name pred e))))

-- In a map of predicates that the validation accepts, every evaluation ends: as much fuel as there
-- are predicates is enough, whatever the name, the cache and the evaluators of the screen are.
pub accepted-Ends :
    (hash : PredicateKind → Result PerceptionError String) (leaf : Leaf) (ctx : Context)
    (name : String) (p : Perception)
    → validate_predicate_graph ctx.predicates ≡ some (ok tt)
    → Ends (evaluate_facade hash leaf (length ctx.predicates) ctx name p)
accepted-Ends hash leaf ctx name p e =
    let r = accepted-Ranked ctx.predicates e in
    facade-Ends hash leaf ctx (rank_in r.done) (length ctx.predicates) name p
      (Ranked-IsRanked ctx r)
      (omega (
        arith,
        rank_in-le r.done name,
        length-names_of ctx.predicates,
        Ordered-length ctx.predicates r.done (names_of ctx.predicates) r.ordered r.keys,
      ))
