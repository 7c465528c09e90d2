-- ===== src/Prelude/Decimal.antt =====
-- Numbers printed in decimal, as `format!("{n}")` does.
use Prim.Native.Nat.{ℕ, zero, suc, ◌/◌, ◌%◌}
use Prim.Native.String.{String, ◌++◌}
use mathlib.Core.Bool.{true, false}
use vcli.Prelude.Tests.{◌==◌, ltb, if◌then◌else◌}

digit : ℕ → String
digit d =
    if d == 0
    then "0"
    else if d == 1
    then "1"
    else if d == 2
    then "2"
    else if d == 3
    then "3"
    else if d == 4
    then "4"
    else if d == 5
    then "5"
    else if d == 6
    then "6"
    else if d == 7
    then "7"
    else if d == 8
    then "8"
    else "9"

-- `n` digits suffice for the number `n`.
digits : ℕ → ℕ → String
digits zero n = ""
digits (suc fuel) n = elim (ltb n 10) [
  | true ↦ digit n
  | false ↦ digits fuel (n / 10) ++ digit (n % 10)
]

unfoldable pub decimal : ℕ → String
unfolding digit digits
decimal n = digits (suc n) n

-- A digit of a number printed in base 16 by `{:x}`.
unfoldable pub hex_digit : ℕ → String
unfolding digit
hex_digit d =
    if ltb d 10
    then digit d
    else if d == 10
    then "a"
    else if d == 11
    then "b"
    else if d == 12
    then "c"
    else if d == 13
    then "d"
    else if d == 14
    then "e"
    else "f"
