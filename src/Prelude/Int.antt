-- ===== src/Prelude/Int.antt =====
-- Signed machine integers as mathematical integers, and their decimal text (`format!`).
use Prim.Native.Nat.{ℕ, zero, suc, ◌+◌, ◌-◌, ◌/◌, ◌%◌}
use Prim.Native.String.{String, ◌++◌, count}
use postgrust_sql.Prelude.Tests.{ltb, nat_beq, if◌then◌else◌}

-- `negsuc n` is -(n + 1).
pub data ℤ : Type 0 where
  pos : ℕ → ℤ
  negsuc : ℕ → ℤ

digit : ℕ → String
digit d =
    if nat_beq d 0
    then "0"
    else if nat_beq d 1
    then "1"
    else if nat_beq d 2
    then "2"
    else if nat_beq d 3
    then "3"
    else if nat_beq d 4
    then "4"
    else if nat_beq d 5
    then "5"
    else if nat_beq d 6
    then "6"
    else if nat_beq d 7
    then "7"
    else if nat_beq d 8
    then "8"
    else "9"

-- The digits of `n`; fuel `n + 1` suffices, since each step divides by ten.
decimal_fuel : ℕ → ℕ → String
unfolding digit
decimal_fuel zero n = ""
decimal_fuel (suc fuel) n =
    let rest = decimal_fuel fuel (n / 10) in if ltb n 10 then digit n else rest ++ digit (n % 10)

unfoldable pub show_nat : ℕ → String
unfolding decimal_fuel
show_nat n = decimal_fuel (n + 1) n

zeros : ℕ → String
zeros zero = ""
zeros (suc n) = "0" ++ zeros n

-- `{i}`
unfoldable pub show_int : ℤ → String
unfolding show_nat
show_int (pos n) = show_nat n
show_int (negsuc n) = "-" ++ show_nat (n + 1)

-- `{i:0width}`: zeros between the sign and the digits
unfoldable pub show_int_padded : ℕ → ℤ → String
unfolding show_nat zeros
show_int_padded width (pos n) = let s = show_nat n in zeros (width - count s) ++ s
show_int_padded width (negsuc n) =
    let s = show_nat (n + 1) in "-" ++ (zeros (width - 1 - count s) ++ s)
