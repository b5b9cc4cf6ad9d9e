-- ===== src/Prelude/Parse.antt =====
-- strconv.Atoi, strconv.ParseBool and the functions of `strings` that take a text apart.
use Prim.Native.Nat.{ℕ, ◌+◌, ◌-◌, ◌*◌, ◌^◌, suc, zero}
use Prim.Native.Char.{Char, code}
use Prim.Native.String.{String}
use mathlib.Core.Bool.{Bool, true, false, ◌&&◌, ◌||◌}
use mathlib.Core.Option.{Option, none, some}
use mathlib.Core.List.{List, [], ◌∷◌}
use text.Mathlib.Text.{◌==◌}
use vergo.Prelude.Tests.{leb, eqb, ltb, if◌then◌else◌}
use vergo.Prelude.Int.{ℤ, pos, negsuc}

abbrev is_digit : ℕ → Bool
is_digit c = leb b'0' c && leb c b'9'

-- The digits of a text behind those that were read.
digits_from : ℕ → String → Option ℕ
digits_from n String.[] = some n
digits_from n (String.◌∷◌ c s) =
    let rest = digits_from (10 * n + (code c - b'0')) s in if is_digit (code c) then rest else none

-- At least one digit.
digits : String → Option ℕ
unfolding digits_from
digits String.[] = none
digits (String.◌∷◌ c s) = digits_from 0 (String.◌∷◌ c s)

-- The range of an int of 64 bits.
abbrev positive : Option ℕ → Option ℤ
positive none = none
positive (some n) = if ltb n (2 ^ 63) then some (pos n) else none

abbrev negative : Option ℕ → Option ℤ
negative none = none
negative (some zero) = some (pos 0)
negative (some (suc n)) = if ltb n (2 ^ 63) then some (negsuc n) else none

unfoldable pub atoi : String → Option ℤ
unfolding digits
atoi String.[] = none
atoi (String.◌∷◌ c s) =
    if eqb (code c) b'-'
    then negative (digits s)
    else if eqb (code c) b'+'
    then positive (digits s)
    else positive (digits (String.◌∷◌ c s))

unfoldable pub parse_bool : String → Option Bool
parse_bool s =
    if s == "1" || s == "t" || s == "T" || s == "true" || s == "TRUE" || s == "True"
    then some true
    else if s == "0" || s == "f" || s == "F" || s == "false" || s == "FALSE" || s == "False"
    then some false
    else none

-- A character in front of the first piece.
abbrev onto_first : Char → List String → List String
onto_first c [] = []
onto_first c (p ∷ ps) = (String.◌∷◌ c p) ∷ ps

-- strings.Split, at a separator of one character
unfoldable pub split : ℕ → String → List String
split sep String.[] = "" ∷ []
split sep (String.◌∷◌ c s) =
    let rest = split sep s in if eqb (code c) sep then "" ∷ rest else onto_first c rest

-- strings.TrimLeft, of one character
unfoldable pub trim_left_of : ℕ → String → String
trim_left_of cut String.[] = ""
trim_left_of cut (String.◌∷◌ c s) =
    let rest = trim_left_of cut s in if eqb (code c) cut then rest else String.◌∷◌ c s
