-- ===== src/Prelude/Decimal.antt =====
-- `String(n)` for a natural number: its decimal digits. The fuel is n + 1, and n / 10 < n.
use Prim.Native.Nat.{ℕ, zero, suc, ◌/◌, ◌%◌, ◌<◌}
use Prim.Native.String.{String, ◌++◌}
use mathlib.Core.Path.{◌≡◌, refl}
use native.Mathlib.Omega.{arith}
use universal_smart_wallet.Prelude.Tests.{ltb, if◌then◌else◌, ◌==◌}

digit : ℕ → String
digit d =
    if d == 0
    then "0"
    else if d == 1
    then "1"
    else if d == 2
    then "2"
    else if d == 3
    then "3"
    else if d == 4
    then "4"
    else if d == 5
    then "5"
    else if d == 6
    then "6"
    else if d == 7
    then "7"
    else if d == 8
    then "8"
    else "9"

decimal_onto : ℕ → ℕ → String → String
unfolding digit
decimal_onto zero n suffix = suffix
decimal_onto (suc fuel) n suffix =
    let rest = decimal_onto fuel (n / 10) (digit (n % 10) ++ suffix) in
    if ltb n 10 then digit n ++ suffix else rest

unfoldable pub decimal : ℕ → String
unfolding decimal_onto
decimal n = decimal_onto (suc n) n ""

-- Any fuel above the number gives the same digits.
decimal_onto-fuel :
    (f g n : ℕ) (s : String) → n < f → n < g → decimal_onto f n s ≡ decimal_onto g n s
unfolding decimal_onto
decimal_onto-fuel zero g n s h k = elim h [ ]
decimal_onto-fuel (suc f) zero n s h k = elim k [ ]
decimal_onto-fuel (suc f) (suc g) n s h k =
    ground (arith, decimal_onto-fuel f g (n / 10) (digit (n % 10) ++ s))

decimal_test : decimal 9007199254740991 ≡ "9007199254740991"
unfolding decimal
decimal_test = refl
