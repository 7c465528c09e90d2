-- ===== src/Prelude/Maps.antt =====
-- Maps as association lists: `HashMap<u32, V>` and `HashMap<ProgramId, V>` (numbers for keys) and
-- `BTreeMap<String, V>`. The first entry of a key is the one that counts.
use Prim.Native.Nat.{ℕ}
use Prim.Native.String.{String}
use mathlib.Core.Path.{◌≡◌, refl}
use mathlib.Core.List.{List, [], ◌∷◌}
use mathlib.Core.Option.{Option, none, some}
use native.Mathlib.Omega.{arith}
use text.Mathlib.Text.{◌==◌ as str_eq}
use text.Mathlib.TextEquality.{eq_iff}
use vcli.Prelude.Tests.{◌==◌, if◌then◌else◌}

abbrev pub Assoc {ℓ} : Type ℓ → Type ℓ
Assoc V = List (ℕ × V)

abbrev pub Dict {ℓ} : Type ℓ → Type ℓ
Dict V = List (String × V)

module _ {ℓ} {V : Type ℓ} where
  unfoldable pub get : ℕ → Assoc V → Option V
  get k [] = none
  get k ((j, v) ∷ m) = if j == k then some v else get k m

  -- `insert` of a map: the value of the key is replaced where it stands, or added at the end.
  unfoldable pub put : ℕ → V → Assoc V → Assoc V
  put k v [] = (k, v) ∷ []
  put k v ((j, w) ∷ m) = if j == k then (k, v) ∷ m else (j, w) ∷ put k v m

  -- `get_mut` of a map: the value of the key is changed in place, and a missing key is left out.
  unfoldable pub adjust : ℕ → (V → V) → Assoc V → Assoc V
  adjust k f [] = []
  adjust k f ((j, w) ∷ m) = if j == k then (j, f w) ∷ m else (j, w) ∷ adjust k f m

  unfoldable pub lookup : String → Dict V → Option V
  lookup name [] = none
  lookup name ((n, v) ∷ rest) = if str_eq n name then some v else lookup name rest

  abbrev pub keys : Assoc V → List ℕ
  keys [] = []
  keys ((j, w) ∷ m) = j ∷ keys m

  abbrev pub values : Assoc V → List V
  values [] = []
  values ((j, w) ∷ m) = w ∷ values m

  unfoldable pub insert : String → V → Dict V → Dict V
  insert name value [] = (name, value) ∷ []
  insert name value (entry ∷ rest) =
      if str_eq entry.0 name then (name, value) ∷ rest else entry ∷ insert name value rest

  pub get-put :
      (k j : ℕ) (v : V) (m : Assoc V) → get j (put k v m) ≡ (if k == j then some v else get j m)
  unfolding get put
  get-put k j v [] = refl
  get-put k j v ((i, w) ∷ m) = ground (arith, get-put k j v m)

  abbrev pub map_option : (V → V) → Option V → Option V
  map_option f none = none
  map_option f (some v) = some (f v)

  pub get-adjust :
      (k j : ℕ) (f : V → V) (m : Assoc V)
      → get j (adjust k f m) ≡ (if k == j then map_option f (get j m) else get j m)
  unfolding get adjust
  get-adjust k j f [] = ground arith
  get-adjust k j f ((i, w) ∷ m) = ground (arith, get-adjust k j f m)

  pub keys-adjust : (k : ℕ) (f : V → V) (m : Assoc V) → keys (adjust k f m) ≡ keys m
  unfolding adjust
  keys-adjust k f [] = refl
  keys-adjust k f ((i, w) ∷ m) = ground (arith, keys-adjust k f m)

  -- What a reader finds after a write, by whether the two names are the same.
  pub lookup-insert :
      (written read : String) (value : V) (rest : Dict V)
      → lookup read (insert written value rest)
        ≡ (if str_eq written read then some value else lookup read rest)
  unfolding lookup insert
  lookup-insert written read value [] = refl
  lookup-insert written read value (entry ∷ rest) =
      let here = eq_iff entry.0 written in
      let there = eq_iff entry.0 read in
      ground (arith, here, there, eq_iff written read, lookup-insert written read value rest)
