-- ===== src/Common/Lists.antt =====
-- Lists measured and searched with native numbers and Boolean tests.
use Prim.Native.Nat.{ℕ, zero, suc, ◌+◌}
use mathlib.Core.Path.{◌≡◌, sym, ap, subst, ◌∙◌}
use mathlib.Core.Logic.{◌⊎◌, inl, inr}
use mathlib.Core.Bool.{Bool, true, false, ◌&&◌, ◌||◌}
use mathlib.Core.List.{List, [], ◌∷◌, ◌++◌}
use mathlib.Core.Option.{Option, none, some}
use native.Mathlib.Omega.{arith}
use pole_client_rust.Common.Tests.{if◌then◌else◌, Bool-cases}

module _ {ℓ} {A : Type ℓ} where
  abbrev pub length : List A → ℕ
  length [] = 0
  length (x ∷ xs) = suc (length xs)

  abbrev pub get_elem? : List A → ℕ → Option A
  get_elem? [] i = none
  get_elem? (x ∷ xs) zero = some x
  get_elem? (x ∷ xs) (suc i) = get_elem? xs i

  -- `Vec::is_empty`.
  abbrev pub is_empty : List A → Bool
  is_empty [] = true
  is_empty (x ∷ xs) = false

  -- `Iterator::filter` with a Boolean test.
  abbrev pub keep : (A → Bool) → List A → List A
  keep p [] = []
  keep p (x ∷ xs) = if p x then x ∷ keep p xs else keep p xs

  -- `Iterator::any`, `Iterator::all`, `Iterator::find`.
  abbrev pub any : (A → Bool) → List A → Bool
  any p [] = false
  any p (x ∷ xs) = p x || any p xs

  abbrev pub all : (A → Bool) → List A → Bool
  all p [] = true
  all p (x ∷ xs) = p x && all p xs

  abbrev pub find : (A → Bool) → List A → Option A
  find p [] = none
  find p (x ∷ xs) = if p x then some x else find p xs

  pub length-append : (xs ys : List A) → length (xs ++ ys) ≡ length xs + length ys
  length-append [] ys = omega arith
  length-append (x ∷ xs) ys = omega (arith, length-append xs ys)

  -- A predicate at every element, by recursion.
  abbrev pub All {κ} : (A → Type κ) → List A → Type κ
  All P [] = Unit
  All P (x ∷ xs) = P x × All P xs

  pub All-keep {κ} : (P : A → Type κ) (p : A → Bool) (xs : List A) → All P xs → All P (keep p xs)
  All-keep P p [] h = h
  All-keep P p (x ∷ xs) h = ground (arith, All-keep P p xs h.1)

-- Membership by recursion, which the tactics take apart.
abbrev pub Elem : {A : Type 0} → A → List A → Type 0
Elem x [] = ⊥
Elem x (y ∷ ys) = (x ≡ y) ⊎ Elem x ys

pub All_elem : {A : Type 0} (P : A → Type 0) (x : A) (xs : List A) → All P xs → Elem x xs → P x
All_elem P x [] h e = absurd e
All_elem P x (y ∷ ys) h (inl e) = rw e h.0
All_elem P x (y ∷ ys) h (inr e) = All_elem P x ys h.1 e

pub Elem-append_left : {A : Type 0} (x : A) (xs ys : List A) → Elem x xs → Elem x (xs ++ ys)
Elem-append_left x [] ys e = absurd e
Elem-append_left x (y ∷ xs) ys (inl e) = inl e
Elem-append_left x (y ∷ xs) ys (inr e) = inr (Elem-append_left x xs ys e)

pub Elem-append_right : {A : Type 0} (x : A) (xs ys : List A) → Elem x ys → Elem x (xs ++ ys)
Elem-append_right x [] ys e = e
Elem-append_right x (y ∷ xs) ys e = inr (Elem-append_right x xs ys e)

pub Elem-append : {A : Type 0} (x : A) (xs ys : List A) → Elem x (xs ++ ys) → Elem x xs ⊎ Elem x ys
Elem-append x [] ys e = inr e
Elem-append x (y ∷ xs) ys (inl e) = inl (inl e)
Elem-append x (y ∷ xs) ys (inr e) = elim (Elem-append x xs ys e) [
  | inl l ↦ inl (inr l)
  | inr r ↦ inr r
]

pub Elem-keep :
    {A : Type 0} (p : A → Bool) (x : A) (xs : List A)
    → Elem x (keep p xs)
    → Elem x xs × (p x ≡ true)
Elem-keep p x [] e = absurd e
Elem-keep p x (y ∷ ys) e = elim (Bool-cases (p y)) [
  | inl t ↦ elim (subst (λ b. Elem x (if b then y ∷ keep p ys else keep p ys)) t e) [
    | inl q ↦ (inl q, rw q t)
    | inr r ↦ let ih = Elem-keep p x ys r in (inr ih.0, ih.1)
  ]
  | inr f ↦
      let ih =
        Elem-keep p x ys (subst (λ b. Elem x (if b then y ∷ keep p ys else keep p ys)) f e) in
      (inr ih.0, ih.1)
]

pub keep-Elem :
    {A : Type 0} (p : A → Bool) (x : A) (xs : List A) → Elem x xs → p x ≡ true → Elem x (keep p xs)
keep-Elem p x [] e h = absurd e
keep-Elem p x (y ∷ ys) (inl q) h = rw (ap p (sym q) ∙ h) (inl q)
keep-Elem p x (y ∷ ys) (inr e) h = elim (Bool-cases (p y)) [
  | inl t ↦ rw t (inr (keep-Elem p x ys e h))
  | inr f ↦ rw f (keep-Elem p x ys e h)
]
