-- ===== src/Core/Canonical.antt =====
-- crates/vcli-core/src/canonical.rs: the canonical text of a JSON value. The bytes that the code
-- writes are the UTF-8 of the text that is written here. What `unicode_normalization` and `ryu`
-- answer is given: `nfc`, and `format` of the bits of an f64.
use Prim.Native.Char.{Char, code}
use vcli.Prelude.{
  ℕ, suc, ◌/◌, ◌%◌, ◌^◌, String, str_append, Bool, true, false, not, Option, none, some, List, [],
  ◌∷◌, ltb, ◌==◌, if◌then◌else◌, Dict, lookup, Result, ok, err, ℤ, pos, negsuc, decimal, hex_digit,
  str_lt,
}
pub mod Order
pub mod Answers

-- `serde_json::Number`, by the answers of `as_i64`, `as_u64` and `as_f64` (the bits).
pub record Number : Type 0 where
  pub as_i64 : Option ℤ
  pub as_u64 : Option ℕ
  pub as_f64 : Option ℕ

-- `serde_json::Value`; the members of an object stand in the order of insertion.
mutual
  pub data Value : Type 0 where
    null : Value
    bool : Bool → Value
    number : Number → Value
    string : String → Value
    array : Values → Value
    object : Members → Value

  pub data Values : Type 0 where
    done : Values
    value : Value → Values → Values

  pub data Members : Type 0 where
    end : Members
    member : String → Value → Members → Members

pub data CanonicalError : Type 0 where
  io : String → CanonicalError

-- The text that a writer appends, or its error; `none` where it panics.
abbrev pub Written : Type 0
Written = Option (Result CanonicalError String)

abbrev pub text : String → Written
text s = some (ok s)

infixr 20 ◌and_then◌
abbrev pub ◌and_then◌ : Written → Written → Written
none and_then w = none
some (err e) and_then w = some (err e)
some (ok s) and_then none = none
some (ok s) and_then some (err e) = some (err e)
some (ok s) and_then some (ok t) = some (ok (str_append s t))

abbrev pub i64_text : ℤ → String
i64_text (pos n) = decimal n
i64_text (negsuc n) = str_append "-" (decimal (suc n))

abbrev pub is_zero : ℤ → Bool
is_zero (pos n) = n == 0
is_zero (negsuc n) = false

-- The exponent of an infinity and of a NaN is all ones.
abbrev pub is_finite : ℕ → Bool
is_finite bits = not (bits / 2 ^ 52 % 2 ^ 11 == 2047)

-- `f == 0.0`, which both zeros pass.
abbrev pub is_zero_f64 : ℕ → Bool
is_zero_f64 bits = bits % 2 ^ 63 == 0

-- `format!("\\u{:04x}", c)` of a number below 256.
abbrev pub hex_escape : ℕ → String
hex_escape n = str_append "\\u00" (str_append (hex_digit (n / 16)) (hex_digit (n % 16)))

-- One character of a string.
unfoldable pub escape_char : Char → String
unfolding hex_digit
escape_char c =
    let n = code c in
    if n == 34
    then "\\\""
    else if n == 92
    then "\\\\"
    else if n == 10
    then "\\n"
    else if n == 13
    then "\\r"
    else if n == 9
    then "\\t"
    else if n == 8
    then "\\b"
    else if n == 12
    then "\\f"
    else if ltb n 32
    then hex_escape n
    else String.◌∷◌ c String.[]

unfoldable pub escape_all : String → String
unfolding escape_char
escape_all String.[] = ""
escape_all (String.◌∷◌ c s) = str_append (escape_char c) (escape_all s)

abbrev pub names : Members → List String
names end = []
names (member k v m) = k ∷ names m

-- `sort_unstable`: the names differ, so there is one order.
unfoldable pub insert_name : String → List String → List String
insert_name k [] = k ∷ []
insert_name k (j ∷ ks) = if str_lt k j then k ∷ j ∷ ks else j ∷ insert_name k ks

unfoldable pub sort_names : List String → List String
unfolding insert_name
sort_names [] = []
sort_names (k ∷ ks) = insert_name k (sort_names ks)

-- `if i > 0 { "," }`
abbrev pub comma : Bool → Written
comma first = text (if first then "" else ",")

module _ (format : ℕ → String) where
  abbrev pub write_f64 : Option ℕ → Written
  write_f64 none = some (err (io "unrepresentable number"))
  write_f64 (some bits) =
      if not (is_finite bits)
      then some (err (io "canonical JSON: non-finite number"))
      else text (format (if is_zero_f64 bits then 0 else bits))

  abbrev pub write_u64 : Option ℕ → Option ℕ → Written
  write_u64 (some u) bits = text (decimal u)
  write_u64 none bits = write_f64 bits

  abbrev pub write_i64 : Option ℤ → Number → Written
  write_i64 (some i) n = text (if is_zero i then "0" else i64_text i)
  write_i64 none n = write_u64 n.as_u64 n.as_f64

  abbrev pub write_number : Number → Written
  write_number n = write_i64 n.as_i64 n

module _ (nfc : String → String) where
  abbrev pub write_string : String → Written
  write_string s = text (str_append "\"" (str_append (escape_all (nfc s)) "\""))

  -- The entries in the order of the names. `written` has the text of each value by its name, which
  -- stands for `write_value(w, obj.get(k).unwrap())`: a name without a value panics.
  unfoldable pub write_entries : Bool → List String → Dict Written → Written
  write_entries first [] written = text ""
  write_entries first (k ∷ ks) written =
      comma first
      and_then write_string k
      and_then text ":"
      and_then or_panic (lookup k written)
      and_then write_entries false ks written
    where
      or_panic : Option Written → Written
      or_panic none = none
      or_panic (some w) = w

module _ (nfc : String → String) (format : ℕ → String) where
  unfoldable mutual
    unfolding sort_names write_entries

    pub write_value : Value → Written
    write_value null = text "null"
    write_value (bool true) = text "true"
    write_value (bool false) = text "false"
    write_value (number n) = write_number format n
    write_value (string s) = write_string nfc s
    write_value (array xs) = text "[" and_then write_items true xs and_then text "]"
    write_value (object m) =
        text "{"
        and_then write_entries nfc true (sort_names (names m)) (write_members m)
        and_then text "}"

    pub write_items : Bool → Values → Written
    write_items first done = text ""
    write_items first (value v vs) =
        comma first and_then write_value v and_then write_items false vs

    pub write_members : Members → Dict Written
    write_members end = []
    write_members (member k v m) = (k, write_value v) ∷ write_members m

  unfoldable pub canonicalize : Value → Written
  unfolding write_value
  canonicalize v = write_value v
