-- ===== src/Prelude/Text.antt =====
-- Text: concatenation of C++ strings, and `std::to_string` for unsigned numbers.
use Prim.Native.Nat.{ℕ, zero, suc, ◌/◌, ◌%◌}
use Prim.Native.String.{String}
use Prim.Native.String
use mathlib.Core.List.{List, [], ◌∷◌}
use llvm2cpg.Prelude.Tests.{◌==◌, if◌then◌else◌, ltb}

-- `a + b` on std::string
infixr 65 ◌<>◌
abbrev pub ◌<>◌ : String → String → String
a <> b = String.◌++◌ a b

digit : ℕ → String
digit d =
    if d == 0
    then "0"
    else if d == 1
    then "1"
    else if d == 2
    then "2"
    else if d == 3
    then "3"
    else if d == 4
    then "4"
    else if d == 5
    then "5"
    else if d == 6
    then "6"
    else if d == 7
    then "7"
    else if d == 8
    then "8"
    else "9"

-- The number has fewer decimal digits than the fuel.
digits : ℕ → ℕ → String
digits zero n = ""
digits (suc fuel) n =
    let rest = digits fuel (n / 10) in if ltb n 10 then digit n else rest <> digit (n % 10)

unfoldable pub to_string : ℕ → String
unfolding digit digits
to_string n = digits (suc n) n

-- The texts of a list with a separator between them.
unfoldable pub join : String → List String → String
join separator [] = ""
join separator (x ∷ []) = x
join separator (x ∷ y ∷ rest) = x <> separator <> join separator (y ∷ rest)
