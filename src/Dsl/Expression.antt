-- ===== src/Dsl/Expression.antt =====
-- crates/vcli-dsl/src/expression.rs: the expressions that a submission may hold. The position of an
-- error is only carried along and is left out.
use Prim.Native.Char.{code}
use vcli.Prelude.{
  ℕ, String, str_append, Bool, true, false, ◌&&◌, ◌||◌, List, [], ◌∷◌, str_eq, leb, ◌==◌,
  if◌then◌else◌, Result, ok, err, ◌>>=◌, ok_or,
}
use vcli.Runtime.Expr.{strip_dollar}
pub mod Agreement

pub data Accessor : Type 0 where
  center top_left box confidence : Accessor

pub record Expression : Type 0 where
  pub name : String
  pub accessor : Accessor

-- `DslErrorKind::MalformedExpression`.
pub record MalformedExpression : Type 0 where
  pub reason : String
  pub raw : String

-- `str::split('.')`: one part more than there are dots.
abbrev pub onto_first : String → List String → List String
onto_first c [] = c ∷ []
onto_first c (x ∷ xs) = str_append c x ∷ xs

unfoldable pub split_dots : String → List String
split_dots String.[] = "" ∷ []
split_dots (String.◌∷◌ c s) =
    let rest = split_dots s in
    if code c == b'.' then "" ∷ rest else onto_first (String.◌∷◌ c String.[]) rest

abbrev pub in_range : ℕ → ℕ → ℕ → Bool
in_range low high n = leb low n && leb n high

abbrev pub is_letter : ℕ → Bool
is_letter n = n == b'_' || in_range b'A' b'Z' n || in_range b'a' b'z' n

abbrev pub all_word : String → Bool
all_word String.[] = true
all_word (String.◌∷◌ c s) = (is_letter (code c) || in_range b'0' b'9' (code c)) && all_word s

abbrev pub is_valid_name : String → Bool
is_valid_name String.[] = false
is_valid_name (String.◌∷◌ c s) = is_letter (code c) && all_word s

module _ (src : String) where
  abbrev pub malformed {ℓ} : {A : Type ℓ} → String → Result MalformedExpression A
  malformed reason = err (record { reason = reason; raw = src })

  abbrev pub accessor_named : String → Result MalformedExpression Accessor
  accessor_named acc =
      if str_eq acc "center"
      then ok center
      else if str_eq acc "top_left"
      then ok top_left
      else if str_eq acc "box"
      then ok box
      else if str_eq acc "confidence"
      then ok confidence
      else malformed "unknown accessor"

  abbrev pub after_match : String → List String → Result MalformedExpression Expression
  after_match name [] = malformed "missing accessor"
  after_match name (acc ∷ []) = do
    accessor ← accessor_named acc
    ok (record { name = name; accessor = accessor })
  after_match name (acc ∷ x ∷ xs) = malformed "trailing segments after accessor"

  abbrev pub after_name : String → List String → Result MalformedExpression Expression
  after_name name [] = malformed "missing '.match'"
  after_name name (keyword ∷ parts) =
      if str_eq keyword "match"
      then after_match name parts
      else malformed "expected '.match' after predicate name"

  abbrev pub from_parts : List String → Result MalformedExpression Expression
  from_parts [] = malformed "missing predicate name after '$'"
  from_parts (name ∷ parts) =
      if str_eq name ""
      then malformed "missing predicate name after '$'"
      else if is_valid_name name
      then after_name name parts
      else malformed "predicate name must match [A-Za-z_][A-Za-z0-9_]*"

  unfoldable pub parse_expression : Result MalformedExpression Expression
  unfolding split_dots
  parse_expression = do
    rest ←
        ok_or (strip_dollar src) (record { reason = "expression must begin with '$'"; raw = src })
    from_parts (split_dots rest)
