-- ===== src/Base/Text.antt =====
-- `str(n)` of a natural number, in decimal.
use Prim.Native.Nat.{ℕ, zero, suc, ◌/◌, ◌%◌}
use Prim.Native.String.{String, ◌++◌}
use project_stock.Base.Tests.{◌==◌, ltb, if◌then◌else◌}

digit : ℕ → String
digit d =
    if d == 0
    then "0"
    else if d == 1
    then "1"
    else if d == 2
    then "2"
    else if d == 3
    then "3"
    else if d == 4
    then "4"
    else if d == 5
    then "5"
    else if d == 6
    then "6"
    else if d == 7
    then "7"
    else if d == 8
    then "8"
    else "9"

-- `n` rounds are enough, since a tenth of `n` is less than `n`.
decimal : ℕ → ℕ → String
unfolding digit
decimal zero n = digit n
decimal (suc fuel) n =
    let more = decimal fuel (n / 10) ++ digit (n % 10) in if ltb n 10 then digit n else more

unfoldable pub str_int : ℕ → String
unfolding decimal
str_int n = decimal n n
