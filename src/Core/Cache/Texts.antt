-- ===== src/Core/Cache/Texts.antt =====
-- Texts joined by `#`, as in the keys and file names of cached resources (src/core/model/cache.rs,
-- src/plugins/cache/memory/failover.rs).
use Prim.Native.Char.{Char, char, code}
use Prim.Native.String.{[] as end, ◌∷◌ as ◌▸◌, ◌++◌}
use text.Mathlib.TextLemmas.{nil-append, cons-append}
use pole_client_rust.Common.{ℕ, ◌≡◌, ◌≢◌, refl, sym, ap, ◌∙◌, subst, String}

abbrev hash_sign : ℕ
hash_sign = 35

-- A text without the character `#`.
abbrev pub HasNoHash : String → Type 0
HasNoHash end = Unit {0}
HasNoHash (c ▸ s) = (code c ≢ hash_sign) × HasNoHash s

pub first_eq : {c d : Char} {s t : String} → (c ▸ s) ≡ (d ▸ t) → c ≡ d
first_eq e = cc

pub rest_eq : {c d : Char} {s t : String} → (c ▸ s) ≡ (d ▸ t) → s ≡ t
rest_eq e = cc

hash_front : (x : String) → "#" ++ x ≡ (char 35 tt ▸ x)
hash_front x = cons-append (char 35 tt) "" x ∙ ap (λ t. char 35 tt ▸ t) (nil-append x)

pub empty_front : (x : String) → "" ++ ("#" ++ x) ≡ (char 35 tt ▸ x)
empty_front x = nil-append ("#" ++ x) ∙ hash_front x

-- Texts joined by `#` are those before and behind the first one.
pub split_hash :
    (a b x y : String)
    → HasNoHash a
    → HasNoHash b
    → a ++ ("#" ++ x) ≡ b ++ ("#" ++ y)
    → (a ≡ b) × (x ≡ y)
split_hash end end x y h k e = (refl, rest_eq (sym (empty_front x) ∙ e ∙ empty_front y))
split_hash end (d ▸ b) x y h k e =
    absurd (k.0 (sym (ap code (first_eq (sym (empty_front x) ∙ e ∙ cons-append d b ("#" ++ y))))))
split_hash (c ▸ a) end x y h k e =
    absurd (h.0 (ap code (first_eq (sym (cons-append c a ("#" ++ x)) ∙ e ∙ empty_front y))))
split_hash (c ▸ a) (d ▸ b) x y h k e =
    let fronts = sym (cons-append c a ("#" ++ x)) ∙ e ∙ cons-append d b ("#" ++ y) in
    let (p, q) = split_hash a b x y h.1 k.1 (rest_eq fronts) in (joined (first_eq fronts) p, q)
  where
    joined : c ≡ d → a ≡ b → (c ▸ a) ≡ (d ▸ b)
    joined m n = cc (m, n)

-- A text with a `#` in it.
pub hash_inside : (a x : String) → ¬ HasNoHash (a ++ ("#" ++ x))
hash_inside end x h = (subst HasNoHash (empty_front x) h).0 refl
hash_inside (c ▸ a) x h = hash_inside a x (subst HasNoHash (cons-append c a ("#" ++ x)) h).1

-- Texts joined by `#` are those before and behind the last one.
pub split_last :
    (a b x y : String)
    → HasNoHash x
    → HasNoHash y
    → a ++ ("#" ++ x) ≡ b ++ ("#" ++ y)
    → (a ≡ b) × (x ≡ y)
split_last end end x y h k e = (refl, rest_eq (sym (empty_front x) ∙ e ∙ empty_front y))
split_last end (d ▸ b) x y h k e = absurd (
    hash_inside b y
      (subst HasNoHash (rest_eq (sym (empty_front x) ∙ e ∙ cons-append d b ("#" ++ y))) h))
split_last (c ▸ a) end x y h k e = absurd (
    hash_inside a x
      (subst HasNoHash (sym (rest_eq (sym (cons-append c a ("#" ++ x)) ∙ e ∙ empty_front y))) k))
split_last (c ▸ a) (d ▸ b) x y h k e =
    let fronts = sym (cons-append c a ("#" ++ x)) ∙ e ∙ cons-append d b ("#" ++ y) in
    let (p, q) = split_last a b x y h k (rest_eq fronts) in (joined_front (first_eq fronts) p, q)
  where
    joined_front : c ≡ d → a ≡ b → (c ▸ a) ≡ (d ▸ b)
    joined_front m n = cc (m, n)
