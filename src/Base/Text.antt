-- ===== src/Base/Text.antt =====
-- Text as the standard library of the source handles it: code points, decimal and hexadecimal
-- digits, joining.
use Prim.Native.Nat.{ℕ, zero, suc, ◌/◌, ◌%◌}
use Prim.Native.String
use Prim.Native.String.{String}
use mathlib.Core.Path.{◌≡◌, refl}
use mathlib.Core.List.{List, [], ◌∷◌}
use finsplitter.Base.Tests.{eqb, if◌then◌else◌}

-- one digit below 16
digit : ℕ → String
digit n =
    if eqb n 0
    then "0"
    else if eqb n 1
    then "1"
    else if eqb n 2
    then "2"
    else if eqb n 3
    then "3"
    else if eqb n 4
    then "4"
    else if eqb n 5
    then "5"
    else if eqb n 6
    then "6"
    else if eqb n 7
    then "7"
    else if eqb n 8
    then "8"
    else if eqb n 9
    then "9"
    else if eqb n 10
    then "a"
    else if eqb n 11
    then "b"
    else if eqb n 12
    then "c"
    else if eqb n 13
    then "d"
    else if eqb n 14
    then "e"
    else "f"

-- the digits of `n` before `tail`, on fuel that bounds their number
decimal_from : ℕ → ℕ → String → String
unfolding digit
decimal_from zero n tail = tail
decimal_from (suc fuel) n tail =
    let now = String.◌++◌ (digit (n % 10)) tail in
    let more = decimal_from fuel (n / 10) now in if eqb (n / 10) 0 then now else more

-- `%d` of a non-negative number
unfoldable pub decimal : ℕ → String
unfolding decimal_from
decimal n = decimal_from (suc n) n ""

-- the last `width` hexadecimal digits of `n`, before `tail`
hex_from : ℕ → ℕ → String → String
unfolding digit
hex_from zero n tail = tail
hex_from (suc width) n tail = hex_from width (n / 16) (String.◌++◌ (digit (n % 16)) tail)

unfoldable pub hex : ℕ → ℕ → String
unfolding hex_from
hex width n = hex_from width n ""

-- `strings.Join`
abbrev pub join : List String → String → String
join [] sep = ""
join (x ∷ []) sep = x
join (x ∷ y ∷ rest) sep = String.◌++◌ x (String.◌++◌ sep (join (y ∷ rest) sep))

decimal_tests : decimal 404 ≡ "404"
unfolding decimal
decimal_tests = refl

hex_test : hex 4 0xbeef ≡ "beef"
unfolding hex
hex_test = refl
