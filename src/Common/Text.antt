-- ===== src/Common/Text.antt =====
-- Texts are compared whole and put together by `format!`.
use Prim.Native.String.{String, ◌++◌}
use text.Mathlib.Text.{◌==◌}
use text.Mathlib.TextEquality.{eq_iff}
use text.Mathlib.TextPositions.{eq_refl}
use mathlib.Core.Path.{◌≡◌, refl}
use mathlib.Core.Logic.{◌↔◌}
use mathlib.Core.Bool.{Bool, true, false}
use mathlib.Core.List.{List, [], ◌∷◌}

-- `a == b` on strings.
abbrev pub str_eq : String → String → Bool
str_eq a b = a == b

pub str_eq_iff : (a b : String) → (str_eq a b ≡ true) ↔ (a ≡ b)
str_eq_iff = eq_iff

pub str_eq_refl : (a : String) → str_eq a a ≡ true
str_eq_refl = eq_refl

-- The pieces of a `format!`, put together.
unfoldable pub concat : List String → String
concat [] = ""
concat (s ∷ rest) = s ++ concat rest

unfoldable pub String_discrete : Discrete String
String_discrete a b = from_test (str_eq a b) refl
  where
    from_test : (t : Bool) → str_eq a b ≡ t → Dec (a ≡ b)
    from_test true e = yes ((eq_iff a b).0 e)
    from_test false e = no (λ p. cc (e, (eq_iff a b).1 p))
