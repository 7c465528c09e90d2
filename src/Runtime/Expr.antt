-- ===== src/Runtime/Expr.antt =====
-- crates/vcli-runtime/src/expr.rs: `$<name>.match.center` and `$<name>.match.bbox`.
use Prim.Native.Char.{code}
use vcli.Prelude.{
  ◌-◌, ◌/◌, String, str_append, Option, none, some, str_eq, ◌==◌, if◌then◌else◌, Result, ok, err,
  ◌>>=◌, ok_or, ℤ, pos, pos_part, add_i32,
}
use vcli.Core.Predicate.{Point, Rect, PredicateResult}
use vcli.Runtime.Error.{RuntimeError, expression_unresolved}

pub data Accessor : Type 0 where
  match_center match_bbox : Accessor

pub record ParsedExpr : Type 0 where
  pub predicate : String
  pub accessor : Accessor

-- `strip_prefix('$')`
abbrev pub strip_dollar : String → Option String
strip_dollar String.[] = none
strip_dollar (String.◌∷◌ c s) = if code c == b'$' then some s else none

abbrev push_front : Option (String × String) → String → Option (String × String)
push_front none c = none
push_front (some (a, b)) c = some (str_append c a, b)

-- `split_once('.')`: the first dot ends the left part.
unfoldable pub split_dot : String → Option (String × String)
split_dot String.[] = none
split_dot (String.◌∷◌ c s) =
    let rest = split_dot s in
    if code c == b'.' then some ("", s) else push_front rest (String.◌∷◌ c String.[])

abbrev pub accessor_of : String → Result RuntimeError Accessor
accessor_of tail =
    if str_eq tail "match.center"
    then ok match_center
    else if str_eq tail "match.bbox"
    then ok match_bbox
    else err (expression_unresolved (str_append "unknown accessor '" (str_append tail "'")))

unfoldable pub parse : String → Result RuntimeError ParsedExpr
unfolding split_dot
parse s = do
  rest ← ok_or (strip_dollar s) (expression_unresolved (str_append "expected '$' prefix: " s))
  parts ← ok_or (split_dot rest) (expression_unresolved (str_append "expected '.<accessor>': " s))
  if str_eq parts.0 ""
      then err (expression_unresolved (str_append "empty predicate name: " s))
      else do
        accessor ← accessor_of parts.1
        ok (record { predicate = parts.0; accessor = accessor })

abbrev pub no_match : RuntimeError
no_match = expression_unresolved "predicate has no match_data"

-- `(max(n, 1) - 1) / 2` of a width or height.
abbrev pub half_span : ℤ → ℤ
half_span n = pos ((pos_part n - 1) / 2)

unfoldable pub resolve_center : PredicateResult → Result RuntimeError Point
resolve_center r = do
  md ← ok_or r.match_data no_match
  ok (record {
    x = add_i32 md.bbox.x (half_span md.bbox.w);
    y = add_i32 md.bbox.y (half_span md.bbox.h);
  })

unfoldable pub resolve_bbox : PredicateResult → Result RuntimeError Rect
resolve_bbox r = do md ← ok_or r.match_data no_match; ok md.bbox
