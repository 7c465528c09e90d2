-- ===== src/Examples/Expressions.antt =====
-- An expression that a submission may hold and the runtime refuses.
use vcli.Prelude.{◌≡◌, refl, none, ok}
use vcli.Runtime.Expr.{parse, split_dot}
use vcli.Dsl.Expression.{box, split_dots, parse_expression}
use vcli.Dsl.Expression.Agreement.{resolved, parse_expression-parse}

accepted_box : parse_expression "$skip.match.box" ≡ ok (record { name = "skip"; accessor = box })
unfolding parse_expression split_dots
accepted_box = refl

-- Accepted at submission, refused by the runtime.
parse_expression-parse_example : resolved (parse "$skip.match.box") ≡ none
parse_expression-parse_example =
    parse_expression-parse "$skip.match.box" (record { name = "skip"; accessor = box }) accepted_box

-- The other way round for the bounding box.
refused_bbox : (resolved (parse "$skip.match.bbox") ≡ none) → ⊥
unfolding parse split_dot
refused_bbox e = cc e
