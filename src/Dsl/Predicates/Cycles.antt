-- ===== src/Dsl/Predicates/Cycles.antt =====
-- The cycle that crates/vcli-dsl/src/predicates.rs reports is one.
use vcli.Prelude.{
  ℕ, zero, suc, String, ◌≡◌, refl, sym, ap, subst, ◌⊎◌, inl, inr, true, ◌||◌, Option, none, some,
  List, [], ◌∷◌, ◌++◌, arith, str_eq, eq_iff, Bool-cases, All, Dict, lookup, lookup-insert, Result,
  ok, err,
}
use vcli.Core.Predicate.{PredicateKind}
use vcli.Dsl.Error.{DslError, DslErrorKind, predicate_cycle}
use vcli.Dsl.Predicates.{
  names_of, contains, Color, white, gray, black, Stack, Search, Round, again, finished, rejected,
  panicked, tail_of, from_position, reversed_onto, cycle_at, follow, look_at, round, visit, edges,
}
use vcli.Dsl.Predicates.Names.{contains_all, contains-cases, contains_last, contains_head}

reversed_onto-append :
    (xs ys zs : List String) → reversed_onto xs (ys ++ zs) ≡ reversed_onto xs ys ++ zs
unfolding reversed_onto
reversed_onto-append [] ys zs = refl
reversed_onto-append (x ∷ xs) ys zs = reversed_onto-append xs (x ∷ ys) zs

contains-reversed_onto :
    (xs ys : List String) (e : String)
    → (contains xs e ≡ true) ⊎ (contains ys e ≡ true)
    → contains (reversed_onto xs ys) e ≡ true
unfolding reversed_onto
contains-reversed_onto [] ys e (inl h) = cc h
contains-reversed_onto [] ys e (inr h) = h
contains-reversed_onto (x ∷ xs) ys e (inr h) =
    contains-reversed_onto xs (x ∷ ys) e (inr (contains_last ys x e h))
contains-reversed_onto (x ∷ xs) ys e (inl h) = elim (contains-cases x xs e h) [
  | inl same ↦
      contains-reversed_onto xs (x ∷ ys) e
        (inr (subst (λ n. contains (x ∷ ys) n ≡ true) same (contains_head x ys)))
  | inr later ↦ contains-reversed_onto xs (x ∷ ys) e (inl later)
]

-- A list that starts where it ends.
abbrev pub Closes : List String → Type 0
Closes names = (n : String) × (between : List String) × (names ≡ n ∷ (between ++ n ∷ []))

module _ (predicates : Dict PredicateKind) where
  -- Each name refers to the next one.
  abbrev pub Walk : List String → Type 0
  Walk [] = Unit {0}
  Walk (x ∷ []) = Unit {0}
  Walk (x ∷ y ∷ rest) = (contains (edges predicates x) y ≡ true) × Walk (y ∷ rest)

  -- Each name is referred to by the next one.
  abbrev pub Linked : List String → Type 0
  Linked [] = Unit {0}
  Linked (x ∷ []) = Unit {0}
  Linked (x ∷ y ∷ rest) = (contains (edges predicates y) x ≡ true) × Linked (y ∷ rest)

  Linked-tail : (x : String) (path : List String) → Linked (x ∷ path) → Linked path
  Linked-tail x [] h = tt
  Linked-tail x (y ∷ path) h = h.1

  Walk-reversed_onto :
      (path acc : List String) (x : String)
      → Linked (x ∷ path)
      → Walk (x ∷ acc)
      → Walk (reversed_onto path (x ∷ acc))
  unfolding reversed_onto
  Walk-reversed_onto [] acc x h w = w
  Walk-reversed_onto (y ∷ path) acc x h w = Walk-reversed_onto path (x ∷ acc) y h.1 (h.0, w)

  Walk-tail : (x : String) (xs : List String) → Walk (x ∷ xs) → Walk xs
  Walk-tail x [] w = tt
  Walk-tail x (y ∷ xs) w = w.1

  from_position-Walk :
      (next : String) (xs : List String)
      → contains xs next ≡ true
      → Walk (xs ++ next ∷ [])
      → (tail : List String) × (from_position next xs ≡ some tail)
        × Closes (tail ++ next ∷ [])
        × Walk (tail ++ next ∷ [])
  unfolding from_position
  from_position-Walk next [] h w = cc h
  from_position-Walk next (x ∷ xs) h w = elim (Bool-cases (str_eq x next)) [
    | inl same ↦ (x ∷ xs, rw same refl, (next, xs, rw ((eq_iff x next).0 same) refl), w)
    | inr other ↦
        let later : contains xs next ≡ true = subst (λ b. (b || contains xs next) ≡ true) other h in
        let rest = from_position-Walk next xs later (Walk-tail x (xs ++ next ∷ []) w) in
        (rest.0, rw other (rest.1), rest.2, rest.3)
  ]

  -- The cycle that is reported for an edge to a name on the path.
  cycle_at-Walk :
      (next : String) (path : List String)
      → contains path next ≡ true
      → Linked (next ∷ path)
      → Closes (cycle_at next path) × Walk (cycle_at next path)
  unfolding cycle_at
  cycle_at-Walk next path on_path linked =
      let forward = reversed_onto path [] in
      let walk : Walk (forward ++ next ∷ []) =
        subst Walk (reversed_onto-append path [] (next ∷ []))
          (Walk-reversed_onto path [] next linked tt) in
      let found =
        from_position-Walk next forward (contains-reversed_onto path [] next (inl on_path)) walk in
      (rw (found.1) (found.2), rw (found.1) (found.3))

  -- The names on the stack: each frame still has some of its own edges, and refers to the frame
  -- on top of it.
  abbrev pub Open : Stack → Type 0
  Open [] = Unit {0}
  Open ((n, rest) ∷ stack) = All (λ e. contains (edges predicates n) e ≡ true) rest × Open stack

  pub record Inv (color : Dict Color) (path : List String) (stack : Stack) : Type 0 where
    pub mirrors : path ≡ names_of stack
    pub linked : Linked (names_of stack)
    pub frames : Open stack
    pub grays : (x : String) → lookup x color ≡ some gray → contains (names_of stack) x ≡ true

  -- The error of a cycle holds one.
  abbrev pub IsCycle : DslErrorKind → Type 0
  IsCycle (predicate_cycle cycle) = Closes cycle × Walk cycle
  IsCycle _ = Unit {0}

  abbrev Reports : Round → Type 0
  Reports (again s) = Inv s.color s.path s.stack
  Reports (finished color) = (x : String) → lookup x color ≡ some gray → ⊥
  Reports (rejected e) = IsCycle e.kind
  Reports panicked = Unit {0}

  names-tail :
      (path : List String) (n : String) (names : List String)
      → path ≡ n ∷ names
      → tail_of path ≡ names
  names-tail path n names e = rw e refl

  look_at-Reports :
      (color : Dict Color) (path : List String) (stack : Stack)
      → Inv color path stack
      → Reports (look_at predicates color path stack)
  look_at-Reports color path [] h = λ x g. cc (h.grays x g)
  look_at-Reports color path ((cur, []) ∷ stack) h = record {
    mirrors = names-tail path cur (names_of stack) h.mirrors;
    linked = Linked-tail cur (names_of stack) h.linked;
    frames = h.frames.1;
    grays = λ x g. ground (arith, lookup-insert cur x black color, h.grays x);
  }
  look_at-Reports color path ((cur, next ∷ rest) ∷ stack) h =
      elim (Bool-cases (contains (names_of predicates) next)) [
        | inr no_key ↦ rw no_key skipped
        | inl is_key ↦ rw is_key (by_color (lookup next color) refl)
      ]
    where
      skipped : Inv color path ((cur, rest) ∷ stack)
      skipped = record {
        mirrors = h.mirrors;
        linked = h.linked;
        frames = (h.frames.0.1, h.frames.1);
        grays = h.grays;
      }

      by_color :
          (c : Option Color)
          → lookup next color ≡ c
          → Reports (
              follow predicates next
                (record { color = color; stack = (cur, rest) ∷ stack; path = path })
                c)
      by_color none e = tt
      by_color (some white) e = record {
        mirrors = ap (λ ns. next ∷ ns) h.mirrors;
        linked = (h.frames.0.0, h.linked);
        frames = (contains_all (edges predicates next), (h.frames.0.1, h.frames.1));
        grays = λ x g. ground (arith, lookup-insert next x gray color, h.grays x);
      }
      by_color (some gray) e =
          cycle_at-Walk next path
            (subst (λ p. contains p next ≡ true) (sym h.mirrors) (h.grays next e))
            (subst (λ p. Linked (next ∷ p)) (sym h.mirrors) (h.frames.0.0, h.linked))
      by_color (some black) e = skipped

  abbrev pub VisitReports : Option (Result DslError (Dict Color)) → Type 0
  VisitReports none = Unit {0}
  VisitReports (some (ok color)) = (x : String) → lookup x color ≡ some gray → ⊥
  VisitReports (some (err e)) = IsCycle e.kind

  pub visit-Reports :
      (fuel : ℕ) (s : Search) → Inv s.color s.path s.stack → VisitReports (visit predicates fuel s)
  unfolding visit round
  visit-Reports zero s h = tt
  visit-Reports (suc fuel) s h =
      by_round (look_at predicates s.color s.path s.stack)
        (look_at-Reports s.color s.path s.stack h) (λ t k. visit-Reports fuel t k)
    where
      by_round :
          (r : Round)
          → Reports r
          → ((t : Search) → Inv t.color t.path t.stack → VisitReports (visit predicates fuel t))
          → VisitReports (elim r [
            | again t ↦ visit predicates fuel t
            | finished c ↦ some (ok c)
            | rejected x ↦ some (err x)
            | panicked ↦ none
          ])
      by_round (again t) k next = next t k
      by_round (finished c) k next = k
      by_round (rejected x) k next = k
      by_round panicked k next = tt
