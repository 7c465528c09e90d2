-- ===== src/Dsl/Expression/Agreement.antt =====
-- The expressions that a submission may hold against those that the runtime resolves.
use Prim.Native.Char.{Char, char, code}
use text.Mathlib.TextEquality.{Char-path}
use text.Mathlib.TextLemmas.{cons-append, nil-append}
use vcli.Prelude.{
  String, str_append, ◌≡◌, refl, sym, ap, subst, ◌∙◌, inl, inr, Bool, false, some, List, [], ◌∷◌,
  ◌==◌, if◌then◌else◌, ==_iff, Bool-cases, Option, none, arith, str_eq, eq_iff, Option-cases,
  Result, ok, err, ◌>>=◌, ok_or, Result-cases,
}
use vcli.Runtime.Expr.{split_dot, strip_dollar, accessor_of, ParsedExpr, match_center, parse}
use vcli.Runtime.Error.{RuntimeError}
use vcli.Dsl.Expression.{
  Accessor, center, top_left, box, confidence, Expression, MalformedExpression, accessor_named,
  after_match, after_name, is_valid_name, from_parts, parse_expression, onto_first, split_dots,
}

abbrev dot : Char
dot = char 46 tt

-- The parts put together again.
abbrev dotted : List String → String
dotted [] = ""
dotted (x ∷ xs) = String.◌∷◌ dot (str_append x (dotted xs))

abbrev joined : List String → String
joined [] = ""
joined (x ∷ xs) = str_append x (dotted xs)

abbrev HasParts : List String → Type 0
HasParts [] = ⊥
HasParts (x ∷ xs) = Unit {0}

onto_first-HasParts : (c : String) (xs : List String) → HasParts (onto_first c xs)
onto_first-HasParts c [] = tt
onto_first-HasParts c (x ∷ xs) = tt

split_dots-HasParts : (s : String) → HasParts (split_dots s)
unfolding split_dots
split_dots-HasParts String.[] = tt
split_dots-HasParts (String.◌∷◌ c s) = elim (Bool-cases (code c == 46)) [
  | inl e ↦ rw (e, HasParts) tt
  | inr e ↦ rw (e, HasParts) (onto_first-HasParts _ (split_dots s))
]

dotted-joined : (xs : List String) → HasParts xs → dotted xs ≡ String.◌∷◌ dot (joined xs)
dotted-joined [] h = absurd h
dotted-joined (x ∷ xs) h = refl

joined-onto_first :
    (c : Char) (xs : List String)
    → HasParts xs
    → joined (onto_first (String.◌∷◌ c String.[]) xs) ≡ String.◌∷◌ c (joined xs)
joined-onto_first c [] h = absurd h
joined-onto_first c (x ∷ xs) h =
    ap (λ y. str_append y (dotted xs))
      (cons-append c String.[] x ∙ ap (λ y. String.◌∷◌ c y) (nil-append x))
    ∙ cons-append c x (dotted xs)

joined-split_dots : (s : String) → joined (split_dots s) ≡ s
unfolding split_dots
joined-split_dots String.[] = refl
joined-split_dots (String.◌∷◌ c s) = elim (Bool-cases (code c == 46)) [
  | inl e ↦
      let at : dot ≡ c = Char-path dot c (sym ((==_iff (code c) 46).0 e)) in
      rw (e, joined)
        (nil-append (dotted (split_dots s))
          ∙ dotted-joined (split_dots s) (split_dots-HasParts s)
          ∙ ap (λ x. String.◌∷◌ dot x) (joined-split_dots s)
          ∙ ap (λ d. String.◌∷◌ d s) at)
  | inr e ↦
      rw (e, joined)
        (joined-onto_first c (split_dots s) (split_dots-HasParts s)
          ∙ ap (λ x. String.◌∷◌ c x) (joined-split_dots s))
]

-- The first part is what the runtime's split leaves in front of the first dot.
pub record Splits (t n : String) (parts : List String) : Type 0 where
  pub behind : String
  pub first_dot : split_dot t ≡ some (n, behind)
  pub others : split_dots behind ≡ parts

-- A character that is no dot goes onto the first part.
Splits-push :
    (c : Char) (s n m : String) (rest parts : List String)
    → ((x : String) (y : String) (ys : List String) → parts ≡ x ∷ y ∷ ys → Splits s x (y ∷ ys))
    → onto_first (String.◌∷◌ c String.[]) parts ≡ n ∷ m ∷ rest
    → (code c == 46) ≡ false
    → Splits (String.◌∷◌ c s) n (m ∷ rest)
unfolding split_dot
Splits-push c s n m rest [] ih e other = cc e
Splits-push c s n m rest (x ∷ []) ih e other = cc e
Splits-push c s n m rest (x ∷ y ∷ ys) ih e other =
    let front : str_append (String.◌∷◌ c String.[]) x ≡ n = cc e in
    let back : y ∷ ys ≡ m ∷ rest = cc e in
    let inner = ih x y ys refl in
    record {
      behind = inner.behind;
      first_dot = rw (other, inner.first_dot) (ap (λ z. some (z, inner.behind)) front);
      others = inner.others ∙ back;
    }

split_dot-Splits :
    (t n m : String) (rest : List String) → split_dots t ≡ n ∷ m ∷ rest → Splits t n (m ∷ rest)
unfolding split_dots split_dot
split_dot-Splits String.[] n m rest e = cc e
split_dot-Splits (String.◌∷◌ c s) n m rest e = elim (Bool-cases (code c == 46)) [
  | inl at ↦
      let parts : "" ∷ split_dots s ≡ n ∷ m ∷ rest = subst (λ b. split_if b ≡ n ∷ m ∷ rest) at e in
      let none_before : "" ≡ n = cc parts in
      record {
        behind = s;
        first_dot = rw at (ap (λ z. some (z, s)) none_before);
        others = cc parts;
      }
  | inr other ↦
      Splits-push c s n m rest (split_dots s) (λ x y ys. split_dot-Splits s x y ys)
        (subst (λ b. split_if b ≡ n ∷ m ∷ rest) other e) other
]
  where
    split_if : Bool → List String
    split_if b = if b then "" ∷ split_dots s else onto_first (String.◌∷◌ c String.[]) (split_dots s)

-- What the runtime makes of a result, without the text of an error.
abbrev pub resolved : Result RuntimeError ParsedExpr → Option ParsedExpr
resolved (ok e) = some e
resolved (err x) = none

-- The accessors that the runtime knows by the name that the submission has for them.
abbrev pub expected : Expression → Option ParsedExpr
expected e = elim e.accessor [
  | center ↦ some (record { predicate = e.name; accessor = match_center })
  | top_left ↦ none
  | box ↦ none
  | confidence ↦ none
]

abbrev text_of : Accessor → String
text_of center = "center"
text_of top_left = "top_left"
text_of box = "box"
text_of confidence = "confidence"

-- The text behind the first dot of an accepted expression.
behind_name :
    (u acc : String)
    → split_dots u ≡ "match" ∷ acc ∷ []
    → u ≡ str_append "match" (dotted (acc ∷ []))
behind_name u acc e = sym (joined-split_dots u) ∙ ap joined e

module _ (src : String) where
  accessor_text : (acc : String) (a : Accessor) → accessor_named src acc ≡ ok a → acc ≡ text_of a
  accessor_text acc a e = elim (Bool-cases (str_eq acc "center")) [
    | inl x ↦
        let at : center ≡ a = ground (arith, e, x) in (eq_iff acc "center").0 x ∙ ap text_of at
    | inr x ↦ elim (Bool-cases (str_eq acc "top_left")) [
      | inl y ↦
          let at : top_left ≡ a = ground (arith, e, x, y) in
          (eq_iff acc "top_left").0 y ∙ ap text_of at
      | inr y ↦ elim (Bool-cases (str_eq acc "box")) [
        | inl z ↦
            let at : box ≡ a = ground (arith, e, x, y, z) in (eq_iff acc "box").0 z ∙ ap text_of at
        | inr z ↦ elim (Bool-cases (str_eq acc "confidence")) [
          | inl w ↦
              let at : confidence ≡ a = ground (arith, e, x, y, z, w) in
              (eq_iff acc "confidence").0 w ∙ ap text_of at
          | inr w ↦ absurd (ground (arith, e, x, y, z, w))
        ]
      ]
    ]
  ]

  -- The parts of an accepted expression.
  record IsRead (parts : List String) (e : Expression) : Type 0 where
    shape : parts ≡ e.name ∷ "match" ∷ text_of e.accessor ∷ []
    has_name : str_eq e.name "" ≡ false

  after_match-shape :
      (name : String) (parts : List String) (e : Expression)
      → after_match src name parts ≡ ok e
      → (parts ≡ text_of e.accessor ∷ []) × (name ≡ e.name)
  after_match-shape name [] e h = cc h
  after_match-shape name (acc ∷ x ∷ xs) e h = cc h
  after_match-shape name (acc ∷ []) e h = elim (Result-cases (accessor_named src acc)) [
    | inl (a, x) ↦
        let same : record { name = name; accessor = a } ≡ e =
          cc (subst (λ r. (r >>= with_name) ≡ ok e) x h) in
        (
          ap (λ t. t ∷ []) (accessor_text acc a x) ∙ ap (λ y. text_of y.accessor ∷ []) same,
          ap (λ y. y.name) same,
        )
    | inr (b, x) ↦ cc (subst (λ r. (r >>= with_name) ≡ ok e) x h)
  ]
    where
      with_name : Accessor → Result MalformedExpression Expression
      with_name a = ok (record { name = name; accessor = a })

  from_parts-IsRead :
      (parts : List String) (e : Expression) → from_parts src parts ≡ ok e → IsRead parts e
  from_parts-IsRead [] e h = cc h
  from_parts-IsRead (name ∷ parts) e h = elim (Bool-cases (str_eq name "")) [
    | inl x ↦ absurd (ground (arith, h, x))
    | inr x ↦ elim (Bool-cases (is_valid_name name)) [
      | inl y ↦ named parts (ground (arith, h, x, y)) x
      | inr y ↦ absurd (ground (arith, h, x, y))
    ]
  ]
    where
      named :
          (ps : List String)
          → after_name src name ps ≡ ok e
          → str_eq name "" ≡ false
          → IsRead (name ∷ ps) e
      named [] g x = cc g
      named (keyword ∷ ps) g x = elim (Bool-cases (str_eq keyword "match")) [
        | inl y ↦
            let (tail, same) = after_match-shape name ps e (ground (arith, g, y)) in
            record {
              shape = cc (tail, same, (eq_iff keyword "match").0 y);
              has_name = subst (λ n. str_eq n "" ≡ false) same x;
            }
        | inr y ↦ absurd (ground (arith, g, y))
      ]

-- The runtime on the text behind the name.
resolved_accessor :
    (name : String) (a : Accessor) (u : String)
    → u ≡ str_append "match" (dotted (text_of a ∷ []))
    → resolved (accessor_of u >>= (λ x. ok (record { predicate = name; accessor = x })))
      ≡ expected (record { name = name; accessor = a })
resolved_accessor name center u q = rw q refl
resolved_accessor name top_left u q = rw q refl
resolved_accessor name box u q = rw q refl
resolved_accessor name confidence u q = rw q refl

-- Of the expressions that the parser for submissions accepts, the runtime's parser reads those for
-- the center, as the center of the match of the same predicate, and no other: it refuses those for
-- top_left, box and confidence with an error.
pub parse_expression-parse :
    (src : String) (e : Expression)
    → parse_expression src ≡ ok e
    → resolved (parse src) ≡ expected e
unfolding parse_expression parse
parse_expression-parse src e h = elim (Option-cases (strip_dollar src)) [
  | inl x ↦ cc (subst (λ o. (ok_or o no_dollar >>= next) ≡ ok e) x h)
  | inr (rest, x) ↦
      let read =
        from_parts-IsRead src (split_dots rest) e
          (subst (λ o. (ok_or o no_dollar >>= next) ≡ ok e) x h) in
      let split = split_dot-Splits rest e.name "match" (text_of e.accessor ∷ []) read.shape in
      rw (x, split.first_dot, read.has_name)
        (resolved_accessor e.name e.accessor split.behind
          (behind_name split.behind (text_of e.accessor) split.others))
]
  where
    no_dollar : MalformedExpression
    no_dollar = record { reason = "expression must begin with '$'"; raw = src }

    next : String → Result MalformedExpression Expression
    next rest = from_parts src (split_dots rest)
