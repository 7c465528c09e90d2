-- ===== src/Dsl/Hint.antt =====
-- crates/vcli-dsl/src/hint.rs: the suggestion for a misspelled name.
use Prim.Native.Char.{code}
use vcli.Prelude.{
  ℕ, suc, ◌+◌, String, Bool, true, false, Option, none, some, List, [], ◌∷◌, str_eq, ltb, leb, ◌==◌,
  if◌then◌else◌,
}

-- `s.chars().count()`
abbrev pub char_count : String → ℕ
char_count String.[] = 0
char_count (String.◌∷◌ c s) = suc (char_count s)

-- The loop over the zipped characters, which stops at the second difference.
unfoldable pub differ_at_most_1 : String → String → ℕ → Bool
differ_at_most_1 (String.◌∷◌ a s) (String.◌∷◌ b t) diff = elim (code a == code b) [
  | true ↦ differ_at_most_1 s t diff
  | false ↦ elim (ltb 1 (diff + 1)) [ true ↦ false | false ↦ differ_at_most_1 s t (diff + 1) ]
]
differ_at_most_1 _ _ diff = leb diff 1

-- The loop over the longer text; the shorter one is what `peekable` has left.
unfoldable pub skip_gap : String → String → Bool → Bool
skip_gap shorter String.[] found_gap = true
skip_gap String.[] (String.◌∷◌ l ls) found_gap =
    if found_gap then false else skip_gap String.[] ls true
skip_gap (String.◌∷◌ s ss) (String.◌∷◌ l ls) found_gap = elim (code s == code l) [
  | true ↦ skip_gap ss ls found_gap
  | false ↦ elim found_gap [ true ↦ false | false ↦ skip_gap (String.◌∷◌ s ss) ls true ]
]

unfoldable pub is_insertion : String → String → Bool
unfolding skip_gap
is_insertion shorter longer =
    if char_count longer == char_count shorter + 1 then skip_gap shorter longer false else false

unfoldable pub distance_at_most_1 : String → String → Bool
unfolding differ_at_most_1 is_insertion
distance_at_most_1 a b =
    if char_count a == char_count b
    then differ_at_most_1 a b 0
    else if ltb (char_count a) (char_count b)
    then is_insertion a b
    else is_insertion b a

-- It ends at a name that is the needle itself.
unfoldable pub did_you_mean : String → List String → Option String
unfolding distance_at_most_1
did_you_mean needle [] = none
did_you_mean needle (c ∷ candidates) =
    if str_eq c needle
    then none
    else if distance_at_most_1 needle c
    then some c
    else did_you_mean needle candidates
