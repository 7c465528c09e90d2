-- ===== src/Prelude/Texts.antt =====
-- The order of texts, by their code points from the first on: the order of `str` and of the keys of
-- a `BTreeMap<String, V>`, since UTF-8 keeps the order of the code points.
use Prim.Native.Char.{code}
use Prim.Native.String.{String}
use mathlib.Core.Path.{◌≡◌, refl}
use mathlib.Core.Bool.{Bool, true, false}
use native.Mathlib.Omega.{arith}
use text.Mathlib.TextEquality.{Char-path}
use vcli.Prelude.Tests.{ltb, ◌==◌, if◌then◌else◌}

unfoldable pub str_lt : String → String → Bool
str_lt s String.[] = false
str_lt String.[] (String.◌∷◌ d t) = true
str_lt (String.◌∷◌ c s) (String.◌∷◌ d t) =
    let rest = str_lt s t in if code c == code d then rest else ltb (code c) (code d)

pub str_lt_irrefl : (s : String) → str_lt s s ≡ false
unfolding str_lt
str_lt_irrefl String.[] = refl
str_lt_irrefl (String.◌∷◌ c s) = ground (arith, str_lt_irrefl s)

pub str_lt_asym : (s t : String) → str_lt s t ≡ true → str_lt t s ≡ false
unfolding str_lt
str_lt_asym String.[] String.[] h = refl
str_lt_asym String.[] (String.◌∷◌ d t) h = refl
str_lt_asym (String.◌∷◌ c s) String.[] h = ground arith
str_lt_asym (String.◌∷◌ c s) (String.◌∷◌ d t) h = ground (arith, str_lt_asym s t)

pub str_lt_trans : (s t u : String) → str_lt s t ≡ true → str_lt t u ≡ true → str_lt s u ≡ true
unfolding str_lt
str_lt_trans s t String.[] h k = ground arith
str_lt_trans s String.[] (String.◌∷◌ e u) h k = ground arith
str_lt_trans String.[] (String.◌∷◌ d t) (String.◌∷◌ e u) h k = refl
str_lt_trans (String.◌∷◌ c s) (String.◌∷◌ d t) (String.◌∷◌ e u) h k =
    ground (arith, str_lt_trans s t u)

-- Two texts of which neither is below the other are the same.
pub str_lt_connex : (s t : String) → str_lt s t ≡ false → str_lt t s ≡ false → s ≡ t
unfolding str_lt
str_lt_connex String.[] String.[] h k = refl
str_lt_connex String.[] (String.◌∷◌ d t) h k = ground arith
str_lt_connex (String.◌∷◌ c s) String.[] h k = ground arith
str_lt_connex (String.◌∷◌ c s) (String.◌∷◌ d t) h k =
    ground (arith, Char-path c d, str_lt_connex s t)
