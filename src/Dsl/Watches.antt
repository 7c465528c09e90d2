-- ===== src/Dsl/Watches.antt =====
-- crates/vcli-dsl/src/watches.rs: the checks of the watches.
use Prim.Native.Char.{code}
use vcli.Prelude.{
  ℕ, suc, String, true, Option, none, some, List, [], ◌∷◌, str_eq, str_lt, ◌==◌, if◌then◌else◌,
  Dict, ok, err,
}
use vcli.Core.Predicate.{PredicateKind}
use vcli.Core.Program.{WatchWhen, Lifetime, Watch}
use vcli.Dsl.Path.{JsonPath, root, key, index, to_string}
use vcli.Dsl.Error.{
  Checked, fail_at, unknown_predicate_name, unknown_watch_name, canonicalization_failed,
}
use vcli.Dsl.Expression.{onto_first}
use vcli.Dsl.Predicates.{names_of, contains, validate_predicate_graph}
use vcli.Dsl.Steps.{resolve_as, validate_steps}

-- A new key takes its place in the order.
abbrev pub insert_in_order {ℓ} : {V : Type ℓ} → String → V → Dict V → Dict V
insert_in_order k v [] = (k, v) ∷ []
insert_in_order k v ((j, w) ∷ m) =
    if str_lt k j then (k, v) ∷ (j, w) ∷ m else (j, w) ∷ insert_in_order k v m

abbrev pub strip_prefix : String → String → Option String
strip_prefix String.[] s = some s
strip_prefix (String.◌∷◌ p prefix) String.[] = none
strip_prefix (String.◌∷◌ p prefix) (String.◌∷◌ c s) =
    if code p == code c then strip_prefix prefix s else none

-- `split('/')`
abbrev pub split_slashes : String → List String
split_slashes String.[] = "" ∷ []
split_slashes (String.◌∷◌ c s) =
    let rest = split_slashes s in
    if code c == b'/' then "" ∷ rest else onto_first (String.◌∷◌ c String.[]) rest

abbrev pub push_segments : JsonPath → List String → JsonPath
push_segments at [] = at
push_segments at (seg ∷ segs) =
    if str_eq seg "" then push_segments at segs else push_segments (key at seg) segs

abbrev pub synthetic : String
synthetic = "__vcli_inline__"

abbrev pub moved_path : JsonPath → JsonPath → Option String → JsonPath
moved_path at path none = path
moved_path at path (some remainder) = push_segments at (split_slashes remainder)

-- An error in the inline predicate is one in the watch.
abbrev pub relocate : JsonPath → Checked → Checked
relocate at (ok u) = ok u
relocate at (err e) = err (record e {
  path = moved_path at e.path (strip_prefix "/predicates/__vcli_inline__" (to_string e.path));
})

-- The checks in a row, with what ran out of fuel as `none`.
infixl 5 ◌and_check◌
abbrev pub ◌and_check◌ : Option Checked → Option Checked → Option Checked
none and_check next = none
some (err e) and_check next = some (err e)
some (ok u) and_check next = next

abbrev pub relocated : JsonPath → Option Checked → Option Checked
relocated at none = none
relocated at (some c) = some (relocate at c)

module _ (predicates : Dict PredicateKind) where
  unfoldable pub validate_watch_when : WatchWhen → JsonPath → Option Checked
  unfolding validate_predicate_graph to_string
  validate_watch_when (WatchWhen.by_name name) at =
      some (resolve_as predicates unknown_watch_name name at)
  validate_watch_when (WatchWhen.inline p) at =
      if contains (names_of predicates) synthetic
      then some (
          fail_at
            (canonicalization_failed "reserved name __vcli_inline__ collides with a user predicate")
            at)
      else relocated at (validate_predicate_graph (insert_in_order synthetic p predicates))

  unfoldable pub validate_lifetime : Lifetime → JsonPath → Checked
  validate_lifetime (Lifetime.until_predicate name) at =
      resolve_as predicates unknown_predicate_name name (key at "name")
  validate_lifetime Lifetime.one_shot at = ok tt
  validate_lifetime Lifetime.persistent at = ok tt
  validate_lifetime (Lifetime.timeout_ms ms) at = ok tt

  unfoldable pub validate_watch : Watch → JsonPath → Option Checked
  unfolding validate_watch_when validate_steps validate_lifetime
  validate_watch w at =
      validate_watch_when w.when (key at "when")
      and_check some (validate_steps predicates true 0 w.steps (key at "do"))
      and_check some (validate_lifetime w.lifetime (key at "lifetime"))

  -- The watches from the `i`-th on.
  unfoldable pub validate_watches : ℕ → List Watch → Option Checked
  unfolding validate_watch
  validate_watches i [] = some (ok tt)
  validate_watches i (w ∷ watches) =
      validate_watch w (index (key root "watches") i) and_check validate_watches (suc i) watches
