-- ===== src/Dsl/Predicates/Ranking.antt =====
-- The rank that the order of crates/vcli-dsl/src/predicates.rs gives the names, and its bound.
use vcli.Prelude.{
  ℕ, suc, ◌≤◌, ◌<◌, String, ◌≡◌, refl, subst, inl, inr, true, false, List, [], ◌∷◌, arith, str_eq,
  eq_iff, eq_refl, if◌then◌else◌, Bool-cases, length, All, All-map, All-map₂, Dict, keys,
}
use vcli.Core.Predicate.{PredicateKind}
use vcli.Dsl.Predicates.{names_of, contains, edges}
use vcli.Dsl.Predicates.Names.{contains_last, contains_head, contains-cases}
use vcli.Dsl.Predicates.Acyclic.{Ordered}

-- The number of names from this one on.
unfoldable pub rank_in : List String → String → ℕ
rank_in [] n = 0
rank_in (x ∷ done) n = if str_eq x n then suc (length done) else rank_in done n

pub rank_in-le : (done : List String) (n : String) → rank_in done n ≤ length done
unfolding rank_in
rank_in-le [] n = omega arith
rank_in-le (x ∷ done) n = ground (arith, rank_in-le done n)

rank_in-apart :
    (x : String) (done : List String) (n : String)
    → str_eq x n ≡ false
    → rank_in (x ∷ done) n ≡ rank_in done n
unfolding rank_in
rank_in-apart x done n e = rw e refl

rank_in-head : (x : String) (done : List String) → rank_in (x ∷ done) x ≡ suc (length done)
unfolding rank_in
rank_in-head x done = rw (eq_refl x) refl

remove : String → List String → List String
remove x [] = []
remove x (y ∷ ys) = if str_eq x y then ys else y ∷ remove x ys

length-remove :
    (x : String) (ys : List String) → contains ys x ≡ true → suc (length (remove x ys)) ≡ length ys
unfolding remove
length-remove x [] h = cc h
length-remove x (y ∷ ys) h = ground (arith, length-remove x ys, eq_iff x y, eq_iff y x)

contains-remove :
    (x e : String) (ys : List String)
    → str_eq x e ≡ false
    → contains ys e ≡ true
    → contains (remove x ys) e ≡ true
unfolding remove
contains-remove x e [] n h = cc h
contains-remove x e (y ∷ ys) n h =
    ground (arith, contains-remove x e ys n, eq_iff x y, eq_iff y e, eq_iff x e)

module _ (predicates : Dict PredicateKind) where
  -- The names of an order are distinct, so they are no more than the names that hold them.
  pub Ordered-length :
      (done ys : List String)
      → Ordered predicates done
      → ((x : String) → contains done x ≡ true → contains ys x ≡ true)
      → length done ≤ length ys
  Ordered-length [] ys h inside = omega arith
  Ordered-length (x ∷ done) ys h inside =
      let here = inside x (contains_head x done) in
      let rest = Ordered-length done (remove x ys) h.2 (λ n there.
        contains-remove x n ys (apart n there) (inside n (contains_last done x n there))) in
      omega (arith, rest, length-remove x ys here)
    where
      apart : (n : String) → contains done n ≡ true → str_eq x n ≡ false
      apart n there = elim (Bool-cases (str_eq x n)) [
        | inl same ↦ cc (h.0, there, (eq_iff x n).0 same)
        | inr other ↦ other
      ]

  -- What a name of the order refers to is in the order.
  Ordered-edges :
      (done : List String) (x : String)
      → Ordered predicates done
      → contains done x ≡ true
      → All
          (λ e. contains (names_of predicates) e ≡ true → contains done e ≡ true)
          (edges predicates x)
  Ordered-edges [] x h there = cc there
  Ordered-edges (y ∷ done) x h there = elim (contains-cases y done x there) [
    | inl same ↦
        subst
          (λ n.
            All (λ e. contains (names_of predicates) e ≡ true → contains (y ∷ done) e ≡ true)
              (edges predicates n))
          same (All-map (edges predicates y) (λ e f k. contains_last done y e (f k)) h.1)
    | inr later ↦
        All-map (edges predicates x) (λ e f k. contains_last done y e (f k))
          (Ordered-edges done x h.2 later)
  ]

  -- Everything that a name of the order refers to has a lower rank.
  pub Ordered-lower :
      (done : List String) (x : String)
      → Ordered predicates done
      → ((n : String) → contains done n ≡ true → contains (names_of predicates) n ≡ true)
      → contains done x ≡ true
      → All (λ e. rank_in done e < rank_in done x) (edges predicates x)
  Ordered-lower [] x h keys there = cc there
  Ordered-lower (y ∷ done) x h keys there = elim (contains-cases y done x there) [
    | inl same ↦
        subst (λ n. All (λ e. rank_in (y ∷ done) e < rank_in (y ∷ done) n) (edges predicates n))
          same
          (All-map (edges predicates y)
            (λ e f.
              omega
                (arith, rank_in-head y done, rank_in-apart y done e (apart e f), rank_in-le done e))
            h.1)
    | inr later ↦
        All-map₂ (edges predicates x)
          (λ e f low.
            omega (
              arith,
              rank_in-apart y done e (apart e f),
              rank_in-apart y done x (away x later),
              low,
            ))
          (Ordered-edges done x h.2 later)
          (Ordered-lower done x h.2 (λ n k. keys n (contains_last done y n k)) later)
  ]
    where
      away : (n : String) → contains done n ≡ true → str_eq y n ≡ false
      away n there = elim (Bool-cases (str_eq y n)) [
        | inl same ↦ cc (h.0, there, (eq_iff y n).0 same)
        | inr other ↦ other
      ]

      apart :
          (e : String)
          → (contains (names_of predicates) e ≡ true → contains done e ≡ true)
          → str_eq y e ≡ false
      apart e f = elim (Bool-cases (str_eq y e)) [
        | inl same ↦ away e (
            f (
              subst (λ n. contains (names_of predicates) n ≡ true) ((eq_iff y e).0 same)
                (keys y (contains_head y done))))
        | inr other ↦ other
      ]
