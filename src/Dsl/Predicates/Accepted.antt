-- ===== src/Dsl/Predicates/Accepted.antt =====
-- A map of predicates that the search accepts has an order in which every name reads earlier ones.
use vcli.Prelude.{
  ℕ, suc, String, ◌≡◌, refl, ap, subst, inl, inr, true, Option, none, some, List, [], ◌∷◌, arith,
  str_eq, eq_refl, if◌then◌else◌, Bool-cases, length, All, Dict, lookup, insert, lookup-insert,
  Result, ok, err,
}
use vcli.Core.Predicate.{PredicateKind}
use vcli.Dsl.Error.{DslError, Checked}
use vcli.Dsl.Predicates.{
  names_of, contains, Color, white, gray, black, visit, start_at, visit_all, all_white, enough,
  validate_predicate_graph, validate_predicate_shape,
}
use vcli.Dsl.Predicates.Names.{
  contains_all, contains-cases, contains_last, IsReached, insert-IsReached,
}
use vcli.Dsl.Predicates.Acyclic.{Ordered, Inv}
use vcli.Dsl.Predicates.Visits.{Advance, visit-Advance, Inv-start}

lookup-all_white :
    (m : Dict PredicateKind) (x : String) (c : Color)
    → lookup x (all_white m) ≡ some c
    → (c ≡ white) × (contains (names_of m) x ≡ true)
unfolding lookup
lookup-all_white [] x c e = cc e
lookup-all_white ((k, p) ∷ m) x c e = elim (Bool-cases (str_eq k x)) [
  | inl same ↦ (ground arith, rw same refl)
  | inr other ↦
      let rest =
        lookup-all_white m x c
          (subst (λ b. (if b then some white else lookup x (all_white m)) ≡ some c) other e) in
      (rest.0, contains_last (names_of m) k x rest.1)
]

pub lookup-contains {ℓ} :
    {V : Type ℓ} (m : Dict V) (x : String) (v : V)
    → lookup x m ≡ some v
    → contains (names_of m) x ≡ true
unfolding lookup
lookup-contains [] x v e = cc e
lookup-contains ((k, w) ∷ m) x v e = elim (Bool-cases (str_eq k x)) [
  | inl same ↦ rw same refl
  | inr other ↦
      contains_last (names_of m) k x
        (lookup-contains m x v (subst (λ b. (if b then some w else lookup x m) ≡ some v) other e))
]

pub length-names_of {ℓ} : {V : Type ℓ} (m : Dict V) → length (names_of m) ≡ length m
length-names_of [] = refl
length-names_of ((k, v) ∷ m) = ap suc (length-names_of m)

All-contains :
    (P : String → Type 0) (xs : List String) (x : String) → All P xs → contains xs x ≡ true → P x
All-contains P [] x h e = cc e
All-contains P (y ∷ ys) x h e = elim (contains-cases y ys x e) [
  | inl same ↦ subst P same h.0
  | inr later ↦ All-contains P ys x h.1 later
]

module _ (predicates : Dict PredicateKind) where
  -- All the starts have been reached when the loop over them ends.
  record Covered (before : Dict Color) (starts : List String) : Type 0 where
    after : Dict Color
    advance : Advance predicates before after []
    starts_reached : All (IsReached after) starts

  unchanged :
      (color : Dict Color) (start : String) (starts : List String)
      → IsReached color start
      → Covered color starts
      → Covered color (start ∷ starts)
  unchanged color start starts r h = record {
    after = h.after;
    advance = h.advance;
    starts_reached = (h.advance.reached start r, h.starts_reached);
  }

  visit_all-Covered :
      (fuel : ℕ) (starts : List String) (color : Dict Color) (done : List String)
      → All (λ n. contains (names_of predicates) n ≡ true) starts
      → Inv predicates color [] done
      → visit_all predicates fuel starts color ≡ some (ok tt)
      → Covered color starts
  unfolding visit_all
  visit_all-Covered fuel [] color done keys h e = record {
    after = color;
    advance = record { done = done; inv = h; reached = λ x r. r };
    starts_reached = tt;
  }
  visit_all-Covered fuel (start ∷ starts) color done keys h e =
      by_color (lookup start color) refl e (λ c d k. visit_all-Covered fuel starts c d keys.1 k)
    where
      Later : Type 0
      Later =
          (c : Dict Color) (d : List String)
          → Inv predicates c [] d
          → visit_all predicates fuel starts c ≡ some (ok tt)
          → Covered c starts

      after_visit :
          (v : Option (Result DslError (Dict Color)))
          → visit predicates fuel (start_at predicates start color) ≡ v
          → lookup start color ≡ some white
          → (elim v [
            | none ↦ none
            | some (err x) ↦ some (err x)
            | some (ok c) ↦ visit_all predicates fuel starts c
          ])
            ≡ some (ok tt)
          → Later
          → Covered color (start ∷ starts)
      after_visit none seen is_white e later = cc e
      after_visit (some (err x)) seen is_white e later = cc e
      after_visit (some (ok c)) seen is_white e later =
          let first : Advance predicates (insert start gray color) c [] =
            visit-Advance predicates fuel (start_at predicates start color) done
              (Inv-start predicates start color done keys.0 is_white h) c seen in
          let rest = later c first.done first.inv e in
          record {
            after = rest.after;
            advance = record {
              done = rest.advance.done;
              inv = rest.advance.inv;
              reached = λ x r.
                  rest.advance.reached x
                    (first.reached x (insert-IsReached color start gray x (inl refl) r));
            };
            starts_reached = (
              rest.advance.reached start (
                  first.reached start
                    (inl (ground (arith, lookup-insert start start gray color, eq_refl start)))),
              rest.starts_reached,
            );
          }

      by_color :
          (c : Option Color)
          → lookup start color ≡ c
          → (elim c [
            | none ↦ none
            | some white ↦ elim (visit predicates fuel (start_at predicates start color)) [
              | none ↦ none
              | some (err x) ↦ some (err x)
              | some (ok c') ↦ visit_all predicates fuel starts c'
            ]
            | some _ ↦ visit_all predicates fuel starts color
          ])
            ≡ some (ok tt)
          → Later
          → Covered color (start ∷ starts)
      by_color none is e later = cc e
      by_color (some white) is e later =
          after_visit (visit predicates fuel (start_at predicates start color)) refl is e later
      by_color (some gray) is e later = unchanged color start starts (inl is) (later color done h e)
      by_color (some black) is e later =
          unchanged color start starts (inr is) (later color done h e)

  all_white-Inv : Inv predicates (all_white predicates) [] []
  all_white-Inv =
      let first = lookup-all_white predicates in
      record {
        blacks = λ x e. cc ((first x black e).0);
        dones = λ x e. cc e;
        grays = λ x e. cc ((first x gray e).0);
        known = λ x c e. (first x c e).1;
        ordered = tt;
        frames = tt;
      }

  -- All the names in an order.
  pub record Ranked : Type 0 where
    pub done : List String
    pub ordered : Ordered predicates done
    pub keys : (x : String) → contains done x ≡ true → contains (names_of predicates) x ≡ true
    pub all : (x : String) → contains (names_of predicates) x ≡ true → contains done x ≡ true

  Covered-Ranked : (before : Dict Color) → Covered before (names_of predicates) → Ranked
  Covered-Ranked before h = record {
    done = h.advance.done;
    ordered = h.advance.inv.ordered;
    keys = λ x d. h.advance.inv.known x black (h.advance.inv.dones x d);
    all = λ x k.
        elim (All-contains (IsReached h.after) (names_of predicates) x h.starts_reached k) [
          | inl g ↦ cc (h.advance.inv.grays x g)
          | inr b ↦ h.advance.inv.blacks x b
        ];
  }

  pub accepted-Ranked : validate_predicate_graph predicates ≡ some (ok tt) → Ranked
  unfolding validate_predicate_graph
  accepted-Ranked e = by_shape (validate_predicate_shape predicates) e
    where
      by_shape :
          (c : Checked)
          → (elim c [
            | err x ↦ some (err x)
            | ok u ↦
                visit_all predicates
                  (enough predicates)
                  (names_of predicates)
                  (all_white predicates)
          ])
            ≡ some (ok tt)
          → Ranked
      by_shape (err x) e = cc e
      by_shape (ok u) e = Covered-Ranked (all_white predicates) (
          visit_all-Covered (enough predicates) (names_of predicates) (all_white predicates) []
            (contains_all (names_of predicates)) all_white-Inv e)
