-- ===== src/Common/Chars.antt =====
-- Texts taken apart and put together as `str` does it: `split`, `splitn`, `parse::<i64>`, and the
-- decimal digits of `format!`.
use Prim.Native.Nat.{ℕ, zero, suc, ◌+◌, ◌-◌, ◌*◌, ◌/◌, ◌%◌}
use Prim.Native.Char.{Char, code}
use Prim.Native.String.{String, [] as end, ◌∷◌ as ◌▸◌, ◌++◌, compare}
use text.Mathlib.Text.{is_le}
use mathlib.Core.Bool.{Bool, true, false, ◌&&◌}
use mathlib.Core.Option.{Option, none, some}
use mathlib.Core.List.{List, [], ◌∷◌}
use pole_client_rust.Common.Tests.{if◌then◌else◌, ltb, leb, ◌==◌}
use pole_client_rust.Common.Lists.{get_elem?}

-- A machine integer with a sign: `negsuc n` is -(n + 1).
pub data ℤ : Type 0 where
  pos negsuc : ℕ → ℤ

unfoldable pub leb_ℤ : ℤ → ℤ → Bool
leb_ℤ (pos a) (pos b) = leb a b
leb_ℤ (pos a) (negsuc b) = false
leb_ℤ (negsuc a) (pos b) = true
leb_ℤ (negsuc a) (negsuc b) = leb b a

unfoldable push_first : Char → List String → List String
push_first c [] = (c ▸ end) ∷ []
push_first c (s ∷ rest) = (c ▸ s) ∷ rest

-- `s.split(',')`: never empty.
unfoldable pub split_comma : String → List String
unfolding push_first
split_comma end = "" ∷ []
split_comma (c ▸ s) =
    let rest = split_comma s in if code c == 44 then "" ∷ rest else push_first c rest

unfoldable push_before : Char → Option (String × String) → Option (String × String)
push_before c none = none
push_before c (some (a, b)) = some ((c ▸ a, b))

-- The parts of `s.splitn(2, '.')` if there is a point in the text.
unfoldable pub split_point : String → Option (String × String)
unfolding push_before
split_point end = none
split_point (c ▸ s) =
    let rest = split_point s in if code c == 46 then some ("", s) else push_before c rest

-- The text behind a `$` in front.
unfoldable pub strip_dollar : String → String
strip_dollar end = ""
strip_dollar (c ▸ s) = if code c == 36 then s else c ▸ s

-- The digits of a number, from an accumulator; none at any other character.
unfoldable pub digits : ℕ → String → Option ℕ
digits acc end = some acc
digits acc (c ▸ s) =
    let rest = digits (acc * 10 + (code c - 48)) s in
    if leb 48 (code c) && leb (code c) 57 then rest else none

unfoldable pub number : String → Option ℕ
unfolding digits
number end = none
number (c ▸ s) = digits 0 (c ▸ s)

unfoldable positive : Option ℕ → Option ℤ
positive none = none
positive (some n) = if ltb n 9_223_372_036_854_775_808 then some (pos n) else none

unfoldable negative : Option ℕ → Option ℤ
negative none = none
negative (some zero) = some (pos 0)
negative (some (suc n)) = if ltb n 9_223_372_036_854_775_808 then some (negsuc n) else none

-- `s.parse::<i64>().ok()`: a sign and at least one digit, within the bounds of i64.
unfoldable pub parse_i64 : String → Option ℤ
unfolding number positive negative
parse_i64 end = none
parse_i64 (c ▸ s) =
    if code c == 45
    then negative (number s)
    else if code c == 43
    then positive (number s)
    else positive (number (c ▸ s))

unfoldable pub digit : ℕ → String
digit n =
    elim (get_elem? {A = String} ("0" ∷ "1" ∷ "2" ∷ "3" ∷ "4" ∷ "5" ∷ "6" ∷ "7" ∷ "8" ∷ "9" ∷ [])
      n) [ some d ↦ d | none ↦ "" ]

unfoldable pub decimal_in : ℕ → ℕ → String
unfolding digit
decimal_in zero n = ""
decimal_in (suc fuel) n =
    let front = decimal_in fuel (n / 10) in if ltb n 10 then digit n else front ++ digit (n % 10)

-- A u64 has at most 20 digits.
unfoldable pub decimal : ℕ → String
unfolding decimal_in
decimal n = decimal_in 20 n

-- `a <= b` on texts, by their characters.
abbrev pub text_le : String → String → Bool
text_le a b = is_le (compare a b)

-- A sort of pairs by their text.
unfoldable insert_text : {V : Type 0} → String × V → List (String × V) → List (String × V)
insert_text x [] = x ∷ []
insert_text x (y ∷ ys) =
    let rest = insert_text x ys in if text_le x.0 y.0 then x ∷ y ∷ ys else y ∷ rest

unfoldable pub sort_text : {V : Type 0} → List (String × V) → List (String × V)
unfolding insert_text
sort_text [] = []
sort_text (x ∷ xs) = insert_text x (sort_text xs)
