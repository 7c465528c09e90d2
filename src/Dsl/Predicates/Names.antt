-- ===== src/Dsl/Predicates/Names.antt =====
-- Membership of a name in a list of names, and the colors of a map.
use vcli.Prelude.{
  Dict, lookup, insert, lookup-insert, ◌⊎◌, inl, inr, some, Bool-cases, String, ◌≡◌, refl, subst,
  true, false, ◌||◌, List, [], ◌∷◌, arith, str_eq, eq_iff, eq_refl, All, All-map,
}
use vcli.Dsl.Predicates.{contains, Color, gray, black}

pub contains_last :
    (xs : List String) (x e : String) → contains xs e ≡ true → contains (x ∷ xs) e ≡ true
contains_last xs x e h = rw h ground arith

pub contains_head : (x : String) (xs : List String) → contains (x ∷ xs) x ≡ true
contains_head x xs = rw (eq_refl x) refl

-- A name of a list is its head or is in the rest.
pub contains-cases :
    (x : String) (xs : List String) (e : String)
    → contains (x ∷ xs) e ≡ true
    → (x ≡ e) ⊎ (contains xs e ≡ true)
contains-cases x xs e h = elim (Bool-cases (str_eq x e)) [
  | inl same ↦ inl ((eq_iff x e).0 same)
  | inr other ↦ inr (subst (λ b. (b || contains xs e) ≡ true) other h)
]

pub contains_all : (xs : List String) → All (λ e. contains xs e ≡ true) xs
contains_all [] = tt
contains_all (x ∷ xs) =
    (contains_head x xs, All-map xs (λ e h. contains_last xs x e h) (contains_all xs))

pub contains_miss :
    (x : String) (xs : List String) (e : String)
    → contains (x ∷ xs) e ≡ false
    → (str_eq x e ≡ false) × (contains xs e ≡ false)
contains_miss x xs e h = ground arith

pub gray_after :
    (color : Dict Color) (v : Color) (cur x : String)
    → (str_eq cur x ≡ false) ⊎ (v ≡ gray)
    → lookup cur color ≡ some gray
    → lookup cur (insert x v color) ≡ some gray
gray_after color v cur x other h =
    ground (arith, lookup-insert x cur v color, eq_iff x cur, eq_iff cur x)

-- The search has reached the name.
abbrev pub IsReached : Dict Color → String → Type 0
IsReached color x = (lookup x color ≡ some gray) ⊎ (lookup x color ≡ some black)

pub insert-IsReached :
    (color : Dict Color) (n : String) (c : Color) (x : String)
    → (c ≡ gray) ⊎ (c ≡ black)
    → IsReached color x
    → IsReached (insert n c color) x
insert-IsReached color n c x dark h = elim (Bool-cases (str_eq n x)) [
  | inl same ↦ elim dark [
    | inl g ↦ inl (ground (arith, lookup-insert n x c color))
    | inr b ↦ inr (ground (arith, lookup-insert n x c color))
  ]
  | inr other ↦ elim h [
    | inl g ↦ inl (ground (arith, lookup-insert n x c color))
    | inr b ↦ inr (ground (arith, lookup-insert n x c color))
  ]
]
