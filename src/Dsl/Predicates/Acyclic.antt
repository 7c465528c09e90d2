-- ===== src/Dsl/Predicates/Acyclic.antt =====
-- The order in which the search of crates/vcli-dsl/src/predicates.rs finishes the names: an
-- invariant of the search that holds what it has shown.
use vcli.Prelude.{
  String, ◌≡◌, refl, subst, ◌⊎◌, inl, inr, true, false, some, List, [], ◌∷◌, arith, str_eq, eq_iff,
  eq_refl, Bool-cases, All, All-map, Dict, lookup, insert, lookup-insert,
}
use vcli.Core.Predicate.{PredicateKind}
use vcli.Dsl.Predicates.{names_of, contains, Color, white, gray, black, Stack, edges}
use vcli.Dsl.Predicates.Names.{
  contains_last, contains_head, contains-cases, contains_miss, contains_all, gray_after,
}

-- Where a name may be that an open frame still depends on.
abbrev pub Settled : List String → List String → List String → String → Type 0
Settled done rest above e =
    (contains done e ≡ true) ⊎ ((contains rest e ≡ true) ⊎ (contains above e ≡ true))

Settled-more :
    (done done' rest above : List String) (e : String)
    → ((n : String) → contains done n ≡ true → contains done' n ≡ true)
    → Settled done rest above e
    → Settled done' rest above e
Settled-more done done' rest above e more (inl h) = inl (more e h)
Settled-more done done' rest above e more (inr h) = inr h

⊎_map {ℓ κ ι} : {A : Type ℓ} {B : Type κ} {C : Type ι} → A ⊎ C → (A → B) → B ⊎ C
⊎_map (inl a) f = inl (f a)
⊎_map (inr c) f = inr c

module _ (predicates : Dict PredicateKind) where
  -- The names of `done`, the last first: all that one refers to stand behind it.
  abbrev pub Ordered : List String → Type 0
  Ordered [] = Unit {0}
  Ordered (x ∷ done) =
      (contains done x ≡ false)
      × All (λ e. contains (names_of predicates) e ≡ true → contains done e ≡ true)
          (edges predicates x)
      × Ordered done

  -- `above` holds the name of the frame on top of these.
  abbrev pub Frames : Dict Color → List String → List String → Stack → Type 0
  Frames color done above [] = Unit {0}
  Frames color done above ((cur, rest) ∷ stack) =
      (lookup cur color ≡ some gray)
      × (contains (names_of stack) cur ≡ false)
      × All (λ e. contains (names_of predicates) e ≡ true → Settled done rest above e)
          (edges predicates cur)
      × Frames color done (cur ∷ []) stack

  pub record Inv (color : Dict Color) (stack : Stack) (done : List String) : Type 0 where
    pub blacks : (x : String) → lookup x color ≡ some black → contains done x ≡ true
    pub dones : (x : String) → contains done x ≡ true → lookup x color ≡ some black
    pub grays : (x : String) → lookup x color ≡ some gray → contains (names_of stack) x ≡ true
    pub known :
        (x : String) (c : Color) → lookup x color ≡ some c → contains (names_of predicates) x ≡ true
    pub ordered : Ordered done
    pub frames : Frames color done [] stack

  Frames-gray :
      (color : Dict Color) (done above : List String) (stack : Stack) (x : String)
      → Frames color done above stack
      → contains (names_of stack) x ≡ true
      → lookup x color ≡ some gray
  Frames-gray color done above [] x h c = cc c
  Frames-gray color done above ((cur, rest) ∷ stack) x h c =
      elim (contains-cases cur (names_of stack) x c) [
        | inl same ↦ subst (λ n. lookup n color ≡ some gray) same h.0
        | inr below ↦ Frames-gray color done (cur ∷ []) stack x h.3 below
      ]

  -- The frames below stay when a name gets a color that is not one of theirs, or turns gray.
  Frames-insert :
      (color : Dict Color) (v : Color) (done done' above : List String) (stack : Stack) (x : String)
      → (contains (names_of stack) x ≡ false) ⊎ (v ≡ gray)
      → ((e : String) → contains done e ≡ true → contains done' e ≡ true)
      → Frames color done above stack
      → Frames (insert x v color) done' above stack
  Frames-insert color v done done' above [] x other more h = tt
  Frames-insert color v done done' above ((cur, rest) ∷ stack) x other more h = (
    gray_after color v cur x (⊎_map other (λ c. (contains_miss cur (names_of stack) x c).0)) h.0,
    h.1,
    All-map (edges predicates cur)
        (λ e settled is_key. Settled-more done done' rest above e more (settled is_key)) h.2,
    Frames-insert color v done done' (cur ∷ []) stack x
        (⊎_map other (λ c. (contains_miss cur (names_of stack) x c).1)) more h.3,
  )

  -- The top frame without the name that was above it and is done.
  Frames-done :
      (color : Dict Color) (done : List String) (cur : String) (stack : Stack)
      → Frames color (cur ∷ done) (cur ∷ []) stack
      → Frames color (cur ∷ done) [] stack
  Frames-done color done cur [] h = tt
  Frames-done color done cur ((n, rest) ∷ stack) h = (
    h.0,
    h.1,
    All-map (edges predicates n) (λ e settled is_key. lower e (settled is_key)) h.2,
    h.3,
  )
    where
      lower : (e : String) → Settled (cur ∷ done) rest (cur ∷ []) e → Settled (cur ∷ done) rest [] e
      lower e (inl d) = inl d
      lower e (inr (inl r)) = inr (inl r)
      lower e (inr (inr a)) = inl (elim (contains-cases cur [] e a) [
        | inl same ↦ subst (λ n. contains (cur ∷ done) n ≡ true) same (contains_head cur done)
        | inr none_left ↦ contains_last done cur e (cc none_left)
      ])

  -- An edge of the top frame that leads to no name of the map, or to one that is done, is left out.
  Frames-skip :
      (color : Dict Color) (done : List String) (cur next : String) (rest : List String)
      (stack : Stack)
      → (contains (names_of predicates) next ≡ false) ⊎ (contains done next ≡ true)
      → Frames color done [] ((cur, next ∷ rest) ∷ stack)
      → Frames color done [] ((cur, rest) ∷ stack)
  Frames-skip color done cur next rest stack why h = (
    h.0,
    h.1,
    All-map (edges predicates cur) (λ e settled is_key. drop_edge e is_key why (settled is_key))
        h.2,
    h.3,
  )
    where
      drop_edge :
          (e : String)
          → contains (names_of predicates) e ≡ true
          → (contains (names_of predicates) next ≡ false) ⊎ (contains done next ≡ true)
          → Settled done (next ∷ rest) [] e
          → Settled done rest [] e
      drop_edge e k why (inl d) = inl d
      drop_edge e k why (inr (inr a)) = inr (inr a)
      drop_edge e k (inl no_key) (inr (inl r)) = elim (contains-cases next rest e r) [
        | inl same ↦ absurd (cc (no_key, k, same))
        | inr later ↦ inr (inl later)
      ]
      drop_edge e k (inr d) (inr (inl r)) = elim (contains-cases next rest e r) [
        | inl same ↦ inl (subst (λ n. contains done n ≡ true) same d)
        | inr later ↦ inr (inl later)
      ]

  -- The top frame ends.
  pub Inv-pop :
      (color : Dict Color) (cur : String) (stack : Stack) (done : List String)
      → Inv color ((cur, []) ∷ stack) done
      → Inv (insert cur black color) stack (cur ∷ done)
  Inv-pop color cur stack done h =
      let gray_cur = h.frames.0 in
      let fresh : contains done cur ≡ false = elim (Bool-cases (contains done cur)) [
        | inl old ↦ absurd (cc (h.dones cur old, gray_cur))
        | inr new ↦ new
      ] in
      record {
        blacks = λ x e. ground (arith, lookup-insert cur x black color, h.blacks x);
        dones = λ x e. ground (arith, lookup-insert cur x black color, h.dones x);
        grays = λ x e. ground (arith, lookup-insert cur x black color, h.grays x);
        known = λ x c e. elim (Bool-cases (str_eq cur x)) [
          | inl same ↦
              subst (λ n. contains (names_of predicates) n ≡ true) ((eq_iff cur x).0 same)
                (h.known cur gray gray_cur)
          | inr other ↦ h.known x c (ground (arith, lookup-insert cur x black color))
        ];
        ordered = (
          fresh,
          All-map (edges predicates cur) (λ e settled is_key. in_done e (settled is_key))
              h.frames.2,
          h.ordered,
        );
        frames = Frames-done _ done cur stack (
            Frames-insert color black done (cur ∷ done) (cur ∷ []) stack cur (inl h.frames.1)
              (λ e. contains_last done cur e) h.frames.3);
      }
    where
      in_done : (e : String) → Settled done [] [] e → contains done e ≡ true
      in_done e (inl d) = d
      in_done e (inr (inl r)) = cc r
      in_done e (inr (inr a)) = cc a

  -- An edge leads to a name that is white.
  pub Inv-push :
      (color : Dict Color) (cur next : String) (rest : List String) (stack : Stack)
      (done : List String)
      → contains (names_of predicates) next ≡ true
      → lookup next color ≡ some white
      → Inv color ((cur, next ∷ rest) ∷ stack) done
      → Inv (insert next gray color) ((next, edges predicates next) ∷ (cur, rest) ∷ stack) done
  Inv-push color cur next rest stack done is_key is_white h =
      let gray_cur = h.frames.0 in
      let apart : contains (cur ∷ names_of stack) next ≡ false =
        elim (Bool-cases (contains (cur ∷ names_of stack) next)) [
          | inl there ↦ absurd (
              cc (
                is_white,
                Frames-gray color done [] ((cur, next ∷ rest) ∷ stack) next h.frames there,
              ))
          | inr away ↦ away
        ] in
      record {
        blacks = λ x e. ground (arith, lookup-insert next x gray color, h.blacks x);
        dones = λ x e. ground (arith, lookup-insert next x gray color, h.dones x, eq_iff next x);
        grays = λ x e. ground (arith, lookup-insert next x gray color, h.grays x);
        known = λ x c e. elim (Bool-cases (str_eq next x)) [
          | inl same ↦
              subst (λ n. contains (names_of predicates) n ≡ true) ((eq_iff next x).0 same) is_key
          | inr other ↦ h.known x c (ground (arith, lookup-insert next x gray color))
        ];
        ordered = h.ordered;
        frames = (
          ground (arith, lookup-insert next next gray color, eq_refl next),
          apart,
          All-map (edges predicates next) (λ e there k. inr (inl there))
              (contains_all (edges predicates next)),
          (
            gray_after color gray cur next (inr refl) gray_cur,
            h.frames.1,
            All-map (edges predicates cur) (λ e settled k. moved e (settled k)) h.frames.2,
            Frames-insert color gray done done (cur ∷ []) stack next (inr refl) (λ e d. d)
                h.frames.3,
          ),
        );
      }
    where
      moved : (e : String) → Settled done (next ∷ rest) [] e → Settled done rest (next ∷ []) e
      moved e (inl d) = inl d
      moved e (inr (inr a)) = cc a
      moved e (inr (inl r)) = elim (contains-cases next rest e r) [
        | inl same ↦
            inr (inr (subst (λ n. contains (next ∷ []) n ≡ true) same (contains_head next [])))
        | inr later ↦ inr (inl later)
      ]

  pub Inv-skip :
      (color : Dict Color) (cur next : String) (rest : List String) (stack : Stack)
      (done : List String)
      → (contains (names_of predicates) next ≡ false) ⊎ (contains done next ≡ true)
      → Inv color ((cur, next ∷ rest) ∷ stack) done
      → Inv color ((cur, rest) ∷ stack) done
  Inv-skip color cur next rest stack done why h = record {
    blacks = h.blacks;
    dones = h.dones;
    grays = h.grays;
    known = h.known;
    ordered = h.ordered;
    frames = Frames-skip color done cur next rest stack why h.frames;
  }
