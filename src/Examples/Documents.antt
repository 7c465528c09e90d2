-- ===== src/Examples/Documents.antt =====
-- crates/vcli-core/src/canonical.rs on concrete values.
use vcli.Prelude.{
  str_lt, lookup, decimal, ℕ, ◌*◌, ◌^◌, String, ◌≡◌, refl, true, none, some, [], ◌∷◌, str_eq,
  if◌then◌else◌, length, All, ok, err, ℤ, pos, negsuc,
}
use vcli.Core.Canonical.{
  Value, null, bool, number, string, array, object, done, value, end, member, canonicalize, io,
  escape_all,
}
use vcli.Core.Canonical.Order.{
  IsSame, itself, in_array, in_object, both, no_more, unmoved, next, swap, twice,
  canonicalize-IsSame,
}
use vcli.Core.Canonical.Answers.{canonicalize-writes}
use vcli.Core.Sha256.{sha256_hex, utf8, padded, chunks_exact}
use vcli.Core.Sha256.Padding.{joined, padded-chunks}

abbrev int : ℤ → Value
int i = number (record { as_i64 = some i; as_u64 = none; as_f64 = none })

abbrev float : ℕ → Value
float bits = number (record { as_i64 = none; as_u64 = none; as_f64 = some bits })

abbrev same_text : String → String
same_text s = s

abbrev no_float : ℕ → String
no_float bits = "?"

-- `{"b":1,"a":[2,{"z":1,"y":2}]}`, and with the members in another order.
abbrev written_first : Value
written_first = object (
    member "b" (int (pos 1)) (
      member "a"
        (array (
          value (int (negsuc 1))
            (value (object (member "z" null (member "y" (bool true) end))) done)))
        end))

abbrev written_then : Value
written_then = object (
    member "a"
      (array (
        value (int (negsuc 1))
          (value (object (member "y" (bool true) (member "z" null end))) done)))
      (member "b" (int (pos 1)) end))

abbrev reordered : IsSame written_first written_then
reordered = in_object (
    twice
      (next "b" itself
        (next "a" (in_array (both itself (both (in_object (swap "z" "y" refl)) no_more))) unmoved))
      (swap "b" "a" refl))

canonical_text :
    canonicalize same_text no_float written_first
    ≡ some (ok "{\"a\":[-2,{\"y\":true,\"z\":null}],\"b\":1}")
unfolding canonicalize str_lt lookup escape_all decimal
canonical_text = refl

infinity_fails :
    canonicalize same_text no_float (array (value (float (2047 * 2 ^ 52)) done))
    ≡ some (err (io "canonical JSON: non-finite number"))
unfolding canonicalize str_lt lookup escape_all decimal
infinity_fails = refl

escapes : canonicalize same_text no_float (string "a\"b\\\n") ≡ some (ok "\"a\\\"b\\\\\\n\"")
unfolding canonicalize str_lt lookup escape_all decimal
escapes = refl

sha256_empty : sha256_hex [] ≡ "e3b0c44298fc1c149afbf4c8996fb92427ae41e4649b934ca495991b7852b855"
unfolding sha256_hex
sha256_empty = refl

sha256_abc :
    sha256_hex (utf8 "abc") ≡ "ba7816bf8f01cfea414140de5dae2223b00361a396177a9cb410ff61f20015ad"
unfolding sha256_hex utf8
sha256_abc = refl

-- `nfc` at one pair of texts: a decomposed letter and its composed form.
abbrev composes : String → String
composes s = if str_eq s "ê" then "ê" else s

abbrev keyed : String → Value
keyed k = object (member k null (member "f" null end))

-- The names are sorted before they are normalized: two objects whose names have the same normal
-- form get two canonical texts.
decomposed_first : canonicalize composes no_float (keyed "ê") ≡ some (ok "{\"ê\":null,\"f\":null}")
unfolding canonicalize str_lt lookup escape_all decimal
decomposed_first = refl

composed_last : canonicalize composes no_float (keyed "ê") ≡ some (ok "{\"f\":null,\"ê\":null}")
unfolding canonicalize str_lt lookup escape_all decimal
composed_last = refl

canonicalize-IsSame_example :
    canonicalize same_text no_float written_first ≡ canonicalize same_text no_float written_then
canonicalize-IsSame_example = canonicalize-IsSame same_text no_float reordered

canonicalize-writes_example :
    (s : String) × (canonicalize same_text no_float written_first ≡ some (ok s))
canonicalize-writes_example =
    canonicalize-writes same_text no_float written_first (tt, ((tt, ((tt, (tt, tt)), tt)), tt))

padded-chunks_example :
    (joined (chunks_exact 64 (padded (97 ∷ 98 ∷ 99 ∷ []))) ≡ padded (97 ∷ 98 ∷ 99 ∷ []))
    × All (λ c. length c ≡ 64) (chunks_exact 64 (padded (97 ∷ 98 ∷ 99 ∷ [])))
padded-chunks_example = padded-chunks (97 ∷ 98 ∷ 99 ∷ [])
