-- ===== src/Dsl/Validation/Inline.antt =====
-- The names that the inline predicate of an accepted watch refers to.
use vcli.Prelude.{
  String, ◌≡◌, refl, subst, ◌⊎◌, inl, inr, Bool, true, false, Option, none, some, [], ◌∷◌, eq_refl,
  if◌then◌else◌, Bool-cases, All, All-map₂, Dict, lookup, ok, err, str_lt,
}
use vcli.Core.Predicate.{PredicateKind}
use vcli.Core.Program.{WatchWhen}
use vcli.Dsl.Path.{JsonPath}
use vcli.Dsl.Error.{Checked, fail_at, canonicalization_failed}
use vcli.Dsl.Predicates.{names_of, contains, edges_of, validate_predicate_graph}
use vcli.Dsl.Predicates.Names.{contains_last, contains_head, contains_miss, contains-cases}
use vcli.Dsl.Watches.{insert_in_order, synthetic, relocated, validate_watch_when}
use vcli.Dsl.Validation.References.{IsNamed, lookup-All, accepted-IsNamed, accepted-apart}

insert_in_order-names {ℓ} :
    {V : Type ℓ} (k x : String) (v : V) (m : Dict V)
    → contains (names_of (insert_in_order k v m)) x ≡ true
    → (k ≡ x) ⊎ (contains (names_of m) x ≡ true)
insert_in_order-names k x v [] e = contains-cases k [] x e
insert_in_order-names {V = W} k x v ((j, w) ∷ m) e = elim (Bool-cases (str_lt k j)) [
  | inl before ↦ contains-cases k (j ∷ names_of m) x (subst Named before e)
  | inr after ↦ elim (contains-cases j (names_of rest) x (subst Named after e)) [
    | inl same ↦ inr (rw same (contains_head x (names_of m)))
    | inr later ↦ elim (insert_in_order-names k x v m later) [
      | inl new ↦ inl new
      | inr old ↦ inr (contains_last (names_of m) j x old)
    ]
  ]
]
  where
    rest : Dict W
    rest = insert_in_order k v m

    Named : Bool → Type 0
    Named b = contains (names_of (if b then (k, v) ∷ (j, w) ∷ m else (j, w) ∷ rest)) x ≡ true

lookup-insert_in_order {ℓ} :
    {V : Type ℓ} (k : String) (v : V) (m : Dict V)
    → contains (names_of m) k ≡ false
    → lookup k (insert_in_order k v m) ≡ some v
unfolding lookup
lookup-insert_in_order k v [] e = rw (eq_refl k) refl
lookup-insert_in_order k v ((j, w) ∷ m) e = elim (Bool-cases (str_lt k j)) [
  | inl before ↦ rw (before, eq_refl k) refl
  | inr after ↦
      let (other, rest) = contains_miss j (names_of m) k e in
      rw (after, other) (lookup-insert_in_order k v m rest)
]

-- A predicate that is accepted under a new name of the map refers to the map's own names only.
inline-IsNamed :
    (predicates : Dict PredicateKind) (k : String) (p : PredicateKind)
    → contains (names_of predicates) k ≡ false
    → validate_predicate_graph (insert_in_order k p predicates) ≡ some (ok tt)
    → All (IsNamed (names_of predicates)) (edges_of p)
inline-IsNamed predicates k p new accepted =
    let extended = insert_in_order k p predicates in
    let at = lookup-insert_in_order k p predicates new in
    All-map₂ (edges_of p)
      (λ e known (apart : ¬ (k ≡ e)). elim (insert_in_order-names k e p predicates known) [
        | inl same ↦ absurd (apart same)
        | inr own ↦ own
      ])
      (lookup-All (λ q. All (IsNamed (names_of extended)) (edges_of q)) extended k p
        (accepted-IsNamed extended accepted) at)
      (accepted-apart extended k p accepted at)

relocated-ok :
    (at : JsonPath) (c : Option Checked) → relocated at c ≡ some (ok tt) → c ≡ some (ok tt)
relocated-ok at none e = cc e
relocated-ok at (some (err x)) e = cc e
relocated-ok at (some (ok tt)) e = refl

-- An inline predicate that a watch may have refers to the program's own names only.
pub watch_when-IsNamed :
    (predicates : Dict PredicateKind) (p : PredicateKind) (at : JsonPath)
    → validate_watch_when predicates (WatchWhen.inline p) at ≡ some (ok tt)
    → All (IsNamed (names_of predicates)) (edges_of p)
unfolding validate_watch_when
watch_when-IsNamed predicates p at e =
    elim (Bool-cases (contains (names_of predicates) synthetic)) [
      | inl taken ↦ cc (subst Accepted taken e)
      | inr new ↦
          inline-IsNamed predicates synthetic p new (relocated-ok at _ (subst Accepted new e))
    ]
  where
    Accepted : Bool → Type 0
    Accepted b =
        (if b
          then some (
              fail_at
                (canonicalization_failed
                  "reserved name __vcli_inline__ collides with a user predicate")
                at)
          else relocated at (validate_predicate_graph (insert_in_order synthetic p predicates)))
        ≡ some (ok tt)
