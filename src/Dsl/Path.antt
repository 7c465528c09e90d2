-- ===== src/Dsl/Path.antt =====
-- crates/vcli-dsl/src/path.rs: the JSON pointers of the errors.
use Prim.Native.Char.{code}
use vcli.Prelude.{ℕ, String, str_append, List, [], ◌∷◌, ◌++◌, ◌==◌, if◌then◌else◌, decimal}

pub data Segment : Type 0 where
  named : String → Segment
  indexed : ℕ → Segment

-- `JsonPath`, its segments in order.
abbrev pub JsonPath : Type 0
JsonPath = List Segment

abbrev pub root : JsonPath
root = []

abbrev pub key : JsonPath → String → JsonPath
key p k = p ++ named k ∷ []

abbrev pub index : JsonPath → ℕ → JsonPath
index p i = p ++ indexed i ∷ []

abbrev escape_char : ℕ → String → String
escape_char n c = if n == b'~' then "~0" else if n == b'/' then "~1" else c

-- `~` and `/` are written `~0` and `~1`.
unfoldable pub escape : String → String
escape String.[] = ""
escape (String.◌∷◌ c s) = str_append (escape_char (code c) (String.◌∷◌ c String.[])) (escape s)

unfoldable pub segment_text : Segment → String
unfolding escape
segment_text (named k) = escape k
segment_text (indexed i) = decimal i

-- `Display`
unfoldable pub to_string : JsonPath → String
unfolding segment_text
to_string [] = ""
to_string (s ∷ rest) = str_append "/" (str_append (segment_text s) (to_string rest))
