-- ===== src/Base/Decimal.antt =====
-- `strconv.Itoa` and `%d` of a number that is not negative, and how long the text is.
use Prim.Native.String.{String, ◌++◌ as ◌<>◌, len}
use Prim.Native.Nat.{ℕ, zero, suc, ◌/◌, ◌%◌, ◌^◌, ◌<◌, ◌≤◌}
use mathlib.Core.Path.{◌≡◌, refl}
use mathlib.Core.Bool.{Bool, true, false}
use native.Mathlib.Omega.{arith}
use native.Mathlib.Nat.{pow-suc}
use text.Mathlib.TextPositions.{len-append}
use conmon_rs.Base.Tests.{◌==◌, ltb, if◌then◌else◌}

abbrev digit : ℕ → String
digit n =
    if n == 0
    then "0"
    else if n == 1
    then "1"
    else if n == 2
    then "2"
    else if n == 3
    then "3"
    else if n == 4
    then "4"
    else if n == 5
    then "5"
    else if n == 6
    then "6"
    else if n == 7
    then "7"
    else if n == 8
    then "8"
    else "9"

-- A number has fewer digits than one more than itself, which is the fuel.
decimal_loop : ℕ → ℕ → String
decimal_loop zero n = ""
decimal_loop (suc fuel) n =
    let rest = decimal_loop fuel (n / 10) in if ltb n 10 then digit n else rest <> digit (n % 10)

unfoldable pub decimal : ℕ → String
unfolding decimal_loop
decimal n = decimal_loop (suc n) n

one_of : (b : Bool) (s t : String) → len s ≡ 1 → len t ≡ 1 → len (if b then s else t) ≡ 1
one_of true s t h k = h
one_of false s t h k = k

len-digit : (n : ℕ) → len (digit n) ≡ 1
len-digit n = one_of (n == 0) "0" _ refl (
    one_of (n == 1) "1" _ refl (
      one_of (n == 2) "2" _ refl (
        one_of (n == 3) "3" _ refl (
          one_of (n == 4) "4" _ refl (
            one_of (n == 5) "5" _ refl (
              one_of (n == 6) "6" _ refl
                (one_of (n == 7) "7" _ refl (one_of (n == 8) "8" "9" refl refl))))))))

len-decimal_loop : (fuel n k : ℕ) → n < 10 ^ suc k → len (decimal_loop fuel n) ≤ suc k
unfolding decimal_loop
len-decimal_loop zero n k h = omega arith
len-decimal_loop (suc fuel) n zero h = ground (arith, len-digit n)
len-decimal_loop (suc fuel) n (suc k) h =
    let rest = len-decimal_loop fuel (n / 10) k (omega (arith, pow-suc 10 (suc k))) in
    ground (
      arith,
      rest,
      len-digit n,
      len-digit (n % 10),
      len-append (decimal_loop fuel (n / 10)) (digit (n % 10)),
    )

-- A number below 10 ^ (k + 1) has at most k + 1 digits.
pub len-decimal : (n k : ℕ) → n < 10 ^ suc k → len (decimal n) ≤ suc k
unfolding decimal
len-decimal n k h = len-decimal_loop (suc n) n k h
