-- ===== src/Dsl/Predicates/Visits.antt =====
-- What the search of crates/vcli-dsl/src/predicates.rs has shown when it ends.
use vcli.Prelude.{
  ℕ, zero, suc, String, ◌≡◌, refl, subst, ◌⊎◌, inl, inr, true, false, Option, none, some, List, [],
  ◌∷◌, arith, str_eq, eq_iff, eq_refl, Bool-cases, All-map, Dict, lookup, insert, lookup-insert, ok,
  err,
}
use vcli.Core.Predicate.{PredicateKind}
use vcli.Dsl.Predicates.{
  names_of, contains, Color, white, gray, black, Stack, Search, Round, again, finished, rejected,
  panicked, edges, follow, look_at, round, visit,
}
use vcli.Dsl.Predicates.Names.{contains_all, IsReached, insert-IsReached}
use vcli.Dsl.Predicates.Acyclic.{Inv, Inv-pop, Inv-push, Inv-skip}

module _ (predicates : Dict PredicateKind) where
  -- The search has gone on, and what it had reached is reached still.
  pub record Advance (before after : Dict Color) (stack : Stack) : Type 0 where
    pub done : List String
    pub inv : Inv predicates after stack done
    pub reached : (x : String) → IsReached before x → IsReached after x

  Advance-trans : (a b c : Dict Color) (s t : Stack) → Advance a b s → Advance b c t → Advance a c t
  Advance-trans a b c s t h k = record {
    done = k.done;
    inv = k.inv;
    reached = λ x r. k.reached x (h.reached x r);
  }

  -- What a round leaves to the search.
  abbrev Keeps : Dict Color → Round → Type 0
  Keeps before (again s) = Advance before s.color s.stack
  Keeps before (finished color) = Advance before color []
  Keeps before _ = Unit {0}

  look_at-Keeps :
      (color : Dict Color) (path : List String) (stack : Stack) (done : List String)
      → Inv predicates color stack done
      → Keeps color (look_at predicates color path stack)
  look_at-Keeps color path [] done h = record { done = done; inv = h; reached = λ x r. r }
  look_at-Keeps color path ((cur, []) ∷ stack) done h = record {
    done = cur ∷ done;
    inv = Inv-pop predicates color cur stack done h;
    reached = λ x r. insert-IsReached color cur black x (inr refl) r;
  }
  look_at-Keeps color path ((cur, next ∷ rest) ∷ stack) done h =
      elim (Bool-cases (contains (names_of predicates) next)) [
        | inr no_key ↦ rw no_key (skipped (inl no_key))
        | inl is_key ↦ rw is_key (by_color is_key (lookup next color) refl)
      ]
    where
      left : Search
      left = record { color = color; stack = (cur, rest) ∷ stack; path = path }

      skipped :
          (contains (names_of predicates) next ≡ false) ⊎ (contains done next ≡ true)
          → Advance color color ((cur, rest) ∷ stack)
      skipped why = record {
        done = done;
        inv = Inv-skip predicates color cur next rest stack done why h;
        reached = λ x r. r;
      }

      by_color :
          contains (names_of predicates) next ≡ true
          → (c : Option Color) → lookup next color ≡ c
          → Keeps color (follow predicates next left c)
      by_color is_key none e = tt
      by_color is_key (some white) e = record {
        done = done;
        inv = Inv-push predicates color cur next rest stack done is_key e h;
        reached = λ x r. insert-IsReached color next gray x (inl refl) r;
      }
      by_color is_key (some gray) e = tt
      by_color is_key (some black) e = skipped (inr (h.blacks next e))

  pub visit-Advance :
      (fuel : ℕ) (s : Search) (done : List String)
      → Inv predicates s.color s.stack done
      → (color : Dict Color) → visit predicates fuel s ≡ some (ok color)
      → Advance s.color color []
  unfolding visit round
  visit-Advance zero s done h color e = cc e
  visit-Advance (suc fuel) s done h color e =
      by_round (look_at predicates s.color s.path s.stack)
        (look_at-Keeps s.color s.path s.stack done h) e (λ t d k. visit-Advance fuel t d k color)
    where
      by_round :
          (r : Round)
          → Keeps s.color r
          → (elim r [
            | again t ↦ visit predicates fuel t
            | finished c ↦ some (ok c)
            | rejected x ↦ some (err x)
            | panicked ↦ none
          ])
            ≡ some (ok color)
          → ((t : Search) (d : List String)
              → Inv predicates t.color t.stack d
              → visit predicates fuel t ≡ some (ok color)
              → Advance t.color color [])
          → Advance s.color color []
      by_round (again t) k e next =
          Advance-trans s.color t.color color t.stack [] k (next t k.done k.inv e)
      by_round (finished c) k e next = subst (λ m. Advance s.color m []) (cc e) k
      by_round (rejected x) k e next = cc e
      by_round panicked k e next = cc e

  pub Inv-start :
      (start : String) (color : Dict Color) (done : List String)
      → contains (names_of predicates) start ≡ true
      → lookup start color ≡ some white
      → Inv predicates color [] done
      → Inv predicates (insert start gray color) ((start, edges predicates start) ∷ []) done
  Inv-start start color done is_key is_white h = record {
    blacks = λ x e. ground (arith, lookup-insert start x gray color, h.blacks x);
    dones = λ x e. ground (arith, lookup-insert start x gray color, h.dones x, eq_iff start x);
    grays = λ x e. ground (arith, lookup-insert start x gray color, h.grays x);
    known = λ x c e. elim (Bool-cases (str_eq start x)) [
      | inl same ↦
          subst (λ n. contains (names_of predicates) n ≡ true) ((eq_iff start x).0 same) is_key
      | inr other ↦ h.known x c (ground (arith, lookup-insert start x gray color))
    ];
    ordered = h.ordered;
    frames = (
      ground (arith, lookup-insert start start gray color, eq_refl start),
      refl,
      All-map (edges predicates start) (λ e there k. inr (inl there))
          (contains_all (edges predicates start)),
      tt,
    );
  }
