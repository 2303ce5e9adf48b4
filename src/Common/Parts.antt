-- ===== src/Common/Parts.antt =====
-- Texts cut as `str` does it: `strip_prefix`, `trim_end_matches('/')`, `rsplit_once(':')` and
-- `parse::<u16>`.
use Prim.Native.Nat.{ℕ}
use Prim.Native.Char.{Char, char, code}
use Prim.Native.String.{String, [] as end, ◌∷◌ as ◌▸◌, ◌++◌}
use text.Mathlib.TextLemmas.{nil-append, cons-append}
use mathlib.Core.Path.{◌≡◌, refl, ap, ◌∙◌}
use mathlib.Core.Logic.{◌≢◌}
use mathlib.Core.Bool.{Bool, true, false, ◌&&◌}
use mathlib.Core.Option.{Option, none, some}
use native.Mathlib.Omega.{arith}
use pole_client_rust.Common.Tests.{if◌then◌else◌, ltb, ◌==◌, ==_iff}
use pole_client_rust.Common.Chars.{number}

abbrev pub is_end : String → Bool
is_end end = true
is_end (c ▸ s) = false

unfoldable pub strip_prefix : String → String → Option String
strip_prefix end s = some s
strip_prefix (p ▸ ps) end = none
strip_prefix (p ▸ ps) (c ▸ s) =
    let rest = strip_prefix ps s in if code p == code c then rest else none

unfoldable pub trim_end_slashes : String → String
trim_end_slashes end = ""
trim_end_slashes (c ▸ s) =
    let rest = trim_end_slashes s in if is_end rest && code c == 47 then "" else c ▸ rest

abbrev push_front : Char → String → Option (String × String) → Option (String × String)
push_front c s (some (a, b)) = some ((c ▸ a, b))
push_front c s none = if code c == 58 then some ("", s) else none

-- The parts before and behind the last colon.
unfoldable pub rsplit_colon : String → Option (String × String)
rsplit_colon end = none
rsplit_colon (c ▸ s) = push_front c s (rsplit_colon s)

abbrev below_u16 : Option ℕ → Option ℕ
below_u16 none = none
below_u16 (some n) = if ltb n 65_536 then some n else none

unfoldable pub parse_u16 : String → Option ℕ
unfolding number
parse_u16 end = none
parse_u16 (c ▸ s) = if code c == 43 then below_u16 (number s) else below_u16 (number (c ▸ s))

-- A text without a character.
abbrev pub Lacks : ℕ → String → Type 0
Lacks k end = Unit {0}
Lacks k (c ▸ s) = (code c ≢ k) × Lacks k s

pub strip_prefix_self : (p s : String) → strip_prefix p (p ++ s) ≡ some s
unfolding strip_prefix
strip_prefix_self end s = ap some (nil-append s)
strip_prefix_self (c ▸ p) s =
    rw (cons-append c p s, (==_iff (code c) (code c)).1 refl) (strip_prefix_self p s)

&&_false : (a : Bool) → (a && false) ≡ false
&&_false true = refl
&&_false false = refl

not_same : (a b : ℕ) → a ≢ b → (a == b) ≡ false
not_same a b n = ground arith

-- A text that ends in something without a slash at its end is not cut.
trim-Lacks : (s : String) → Lacks 47 s → trim_end_slashes s ≡ s
unfolding trim_end_slashes
trim-Lacks end l = refl
trim-Lacks (c ▸ s) l =
    rw (not_same (code c) 47 l.0, &&_false (is_end (trim_end_slashes s)))
      (ap (λ t. c ▸ t) (trim-Lacks s l.1))

append-not_end : (s t : String) → is_end t ≡ false → is_end (s ++ t) ≡ false
append-not_end end t n = rw (nil-append t) n
append-not_end (c ▸ s) t n = rw (cons-append c s t) refl

-- A slash is cut only at the end.
trim-push :
    (c : Char) (s : String)
    → is_end s ≡ false
    → trim_end_slashes s ≡ s
    → trim_end_slashes (c ▸ s) ≡ c ▸ s
unfolding trim_end_slashes
trim-push c s n h = rw (h, n)

pub trim-append :
    (s t : String) → Lacks 47 t → is_end t ≡ false → trim_end_slashes (s ++ t) ≡ s ++ t
trim-append end t l n = rw (nil-append t) (trim-Lacks t l)
trim-append (c ▸ s) t l n =
    rw (cons-append c s t) (trim-push c (s ++ t) (append-not_end s t n) (trim-append s t l n))

rsplit-Lacks : (s : String) → Lacks 58 s → rsplit_colon s ≡ none
unfolding rsplit_colon
rsplit-Lacks end l = refl
rsplit-Lacks (c ▸ s) l = rw (rsplit-Lacks s l.1, not_same (code c) 58 l.0)

pub colon_front : (x : String) → ":" ++ x ≡ (char 58 tt ▸ x)
colon_front x = cons-append (char 58 tt) "" x ∙ ap (λ t. char 58 tt ▸ t) (nil-append x)

rsplit-push :
    (c : Char) (s a b : String)
    → rsplit_colon s ≡ some (a, b)
    → rsplit_colon (c ▸ s) ≡ some ((c ▸ a, b))
unfolding rsplit_colon
rsplit-push c s a b h = rw h

rsplit-front : (t : String) → Lacks 58 t → rsplit_colon (char 58 tt ▸ t) ≡ some ("", t)
unfolding rsplit_colon
rsplit-front t l = rw (rsplit-Lacks t l)

-- A text is split at its last colon.
pub rsplit-append : (s t : String) → Lacks 58 t → rsplit_colon (s ++ (":" ++ t)) ≡ some (s, t)
rsplit-append end t l = rw (nil-append (":" ++ t), colon_front t) (rsplit-front t l)
rsplit-append (c ▸ s) t l =
    rw (cons-append c s (":" ++ t)) (rsplit-push c (s ++ (":" ++ t)) s t (rsplit-append s t l))
