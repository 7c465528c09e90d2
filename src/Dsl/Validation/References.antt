-- ===== src/Dsl/Validation/References.antt =====
-- The names that the predicates of an accepted map refer to.
use vcli.Prelude.{
  ℕ, suc, ◌<◌, String, ◌≡◌, refl, sym, subst, inl, inr, true, some, List, [], ◌∷◌, arith, str_eq,
  if◌then◌else◌, Bool-cases, All, All-map, Dict, lookup, ok, err,
}
use vcli.Core.Predicate.{
  Region, relative_to, PredicateKind, template, color_at, pixel_diff, all_of, any_of, not_of,
  elapsed_ms_since_true,
}
use vcli.Dsl.Path.{JsonPath, key, index}
use vcli.Dsl.Error.{Checked}
use vcli.Dsl.Predicates.{
  names_of, contains, ◌then_check◌, resolve_name, resolve_elapsed, resolve_all, check_operands,
  check_region_references, check_predicate_references, predicate_path, check_each,
  validate_predicate_shape, region_edges, edges_of, edges_at, enough, all_white, visit_all,
  validate_predicate_graph,
}
use mathlib.Core.Option.{some-injective}
use vcli.Dsl.Predicates.Ranking.{rank_in, Ordered-lower}
use vcli.Dsl.Predicates.Accepted.{accepted-Ranked, lookup-contains}

pub then_check-ok : (a b : Checked) → (a then_check b) ≡ ok tt → (a ≡ ok tt) × (b ≡ ok tt)
then_check-ok (ok tt) b e = (refl, e)
then_check-ok (err x) b e = cc e

module _ (names : List String) where
  abbrev pub IsNamed : String → Type 0
  IsNamed name = contains names name ≡ true

  resolve_name-IsNamed :
      (name : String) (at : JsonPath) → resolve_name names name at ≡ ok tt → IsNamed name
  unfolding resolve_name
  resolve_name-IsNamed name at e = elim (Bool-cases (contains names name)) [
    | inl known ↦ known
    | inr unknown ↦ absurd (ground arith)
  ]

  resolve_elapsed-IsNamed :
      (name : String) (at : JsonPath) → resolve_elapsed names name at ≡ ok tt → IsNamed name
  unfolding resolve_elapsed
  resolve_elapsed-IsNamed name at e = elim (Bool-cases (contains names name)) [
    | inl known ↦ known
    | inr unknown ↦ absurd (ground arith)
  ]

  resolve_all-IsNamed :
      (i : ℕ) (ns : List String) (at : JsonPath)
      → resolve_all names i ns at ≡ ok tt
      → All IsNamed ns
  unfolding resolve_all
  resolve_all-IsNamed i [] at e = tt
  resolve_all-IsNamed i (n ∷ ns) at e =
      let both = then_check-ok (resolve_name names n (index at i)) _ e in
      (resolve_name-IsNamed n (index at i) both.0, resolve_all-IsNamed (suc i) ns at both.1)

  operands-IsNamed :
      (op : String) (ns : List String) (at : JsonPath)
      → check_operands names op ns at ≡ ok tt
      → All IsNamed ns
  operands-IsNamed op [] at e = tt
  operands-IsNamed op (n ∷ ns) at e = resolve_all-IsNamed 0 (n ∷ ns) at e

  region-IsNamed :
      (region : Region) (at : JsonPath)
      → check_region_references names region at ≡ ok tt
      → All IsNamed (region_edges region)
  region-IsNamed (relative_to predicate anchor offset size) at e =
      (resolve_name-IsNamed predicate (key at "predicate") e, tt)
  region-IsNamed _ at e = tt

  references-IsNamed :
      (p : PredicateKind) (at : JsonPath)
      → check_predicate_references names p at ≡ ok tt
      → All IsNamed (edges_of p)
  unfolding check_predicate_references
  references-IsNamed (all_of of) at e = operands-IsNamed "all_of" of (key at "of") e
  references-IsNamed (any_of of) at e = operands-IsNamed "any_of" of (key at "of") e
  references-IsNamed (not_of of) at e = (resolve_name-IsNamed of (key at "of") e, tt)
  references-IsNamed (elapsed_ms_since_true name ms) at e =
      (resolve_elapsed-IsNamed name (key at "predicate") e, tt)
  references-IsNamed (template image confidence region throttle_ms) at e =
      region-IsNamed region (key at "region") e
  references-IsNamed (pixel_diff region baseline threshold) at e =
      region-IsNamed region (key at "region") e
  references-IsNamed (color_at point rgb tolerance) at e = tt

  check_each-IsNamed :
      (m : Dict PredicateKind)
      → check_each names m ≡ ok tt
      → All (λ entry. All IsNamed (edges_of entry.1)) m
  unfolding check_each
  check_each-IsNamed [] e = tt
  check_each-IsNamed ((name, p) ∷ rest) e =
      let both =
        then_check-ok (check_predicate_references names p (predicate_path names name)) _ e in
      (references-IsNamed p (predicate_path names name) both.0, check_each-IsNamed rest both.1)

pub lookup-All {ℓ} :
    {V : Type ℓ} (P : V → Type 0) (m : Dict V) (x : String) (v : V)
    → All (λ entry. P entry.1) m
    → lookup x m ≡ some v
    → P v
unfolding lookup
lookup-All P [] x v h e = cc e
lookup-All P ((k, w) ∷ m) x v h e = elim (Bool-cases (str_eq k x)) [
  | inl same ↦
      subst P (some-injective w v (subst (λ b. (if b then some w else lookup x m) ≡ some v) same e))
        h.0
  | inr other ↦
      lookup-All P m x v h.1 (subst (λ b. (if b then some w else lookup x m) ≡ some v) other e)
]

module _ (predicates : Dict PredicateKind) where
  accepted-shape :
      validate_predicate_graph predicates ≡ some (ok tt)
      → validate_predicate_shape predicates ≡ ok tt
  unfolding validate_predicate_graph
  accepted-shape e = by_shape (validate_predicate_shape predicates) e
    where
      by_shape :
          (c : Checked)
          → (elim c [
            | err x ↦ some (err x)
            | ok u ↦
                visit_all predicates
                  (enough predicates)
                  (names_of predicates)
                  (all_white predicates)
          ])
            ≡ some (ok tt)
          → c ≡ ok tt
      by_shape (err x) e = cc e
      by_shape (ok tt) e = refl

  -- Each predicate of an accepted map refers to names of the map only.
  pub accepted-IsNamed :
      validate_predicate_graph predicates ≡ some (ok tt)
      → All (λ entry. All (IsNamed (names_of predicates)) (edges_of entry.1)) predicates
  unfolding validate_predicate_shape
  accepted-IsNamed e = check_each-IsNamed (names_of predicates) predicates (accepted-shape e)

  -- No predicate of an accepted map refers to itself.
  pub accepted-apart :
      (x : String) (p : PredicateKind)
      → validate_predicate_graph predicates ≡ some (ok tt)
      → lookup x predicates ≡ some p
      → All (λ e. ¬ (x ≡ e)) (edges_of p)
  accepted-apart x p accepted at =
      let r = accepted-Ranked predicates accepted in
      All-map (edges_of p)
        (λ e lower same.
          let self : rank_in r.done x < rank_in r.done x =
            subst (λ y. rank_in r.done y < rank_in r.done x) (sym same) lower in
          absurd (omega (arith, self)))
        (subst (λ o. All (λ e. rank_in r.done e < rank_in r.done x) (edges_at o)) at
          (Ordered-lower predicates r.done x r.ordered r.keys
            (r.all x (lookup-contains predicates x p at))))
