-- ===== src/Common/First.antt =====
-- The first answer that a loop with an early return gives.
use Prim.Native.Nat.{ℕ, ◌≤◌}
use mathlib.Core.Path.{◌≡◌, refl, ◌∙◌}
use mathlib.Core.Logic.{◌≢◌, inl, inr}
use mathlib.Core.Option.{Option, none, some}
use mathlib.Core.List.{List, [], ◌∷◌, ◌++◌}
use native.Mathlib.Omega.{arith}
use pole_client_rust.Common.Tests.{Option-cases}
use pole_client_rust.Common.Lists.{Elem}
use pole_client_rust.Common.Sort.{
  sort_by, sort_by-Elem, Elem-sort_by, IsSortedFrom, sort_by-IsSortedFrom,
}

module _ {B : Type 0} where
  abbrev pub or_later : Option B → Option B → Option B
  or_later none later = later
  or_later (some b) later = some b

  or_later_assoc : (a b c : Option B) → or_later a (or_later b c) ≡ or_later (or_later a b) c
  or_later_assoc none b c = refl
  or_later_assoc (some a) b c = refl

module _ {A B : Type 0} where
  abbrev pub first_some : (A → Option B) → List A → Option B
  first_some f [] = none
  first_some f (x ∷ xs) = or_later (f x) (first_some f xs)

  pub first_some-append :
      (f : A → Option B) (xs ys : List A)
      → first_some f (xs ++ ys) ≡ or_later (first_some f xs) (first_some f ys)
  first_some-append f [] ys = refl
  first_some-append f (x ∷ xs) ys =
      rw (first_some-append f xs ys) (or_later_assoc (f x) (first_some f xs) (first_some f ys))

  pub first_some-none :
      (f : A → Option B) (xs : List A) (x : A) → first_some f xs ≡ none → Elem x xs → f x ≡ none
  first_some-none f [] x h e = absurd e
  first_some-none f (y ∷ xs) x h e = elim (Option-cases (f y)) [
    | inl q ↦ elim e [ inl p ↦ rw p q | inr r ↦ first_some-none f xs x (rw q at h) r ]
    | inr (b, q) ↦ cc (rw q at h)
  ]

  pub none-first_some :
      (f : A → Option B) (xs : List A) → ((x : A) → Elem x xs → f x ≡ none) → first_some f xs ≡ none
  none-first_some f [] h = refl
  none-first_some f (x ∷ xs) h = rw (h x (inl refl)) (none-first_some f xs (λ y e. h y (inr e)))

  pub first_some-Elem :
      (f : A → Option B) (xs : List A) (b : B)
      → first_some f xs ≡ some b
      → (x : A) × Elem x xs × (f x ≡ some b)
  first_some-Elem f [] b h = cc
  first_some-Elem f (x ∷ xs) b h = elim (Option-cases (f x)) [
    | inl q ↦ let (y, e, p) = first_some-Elem f xs b (rw q at h) in (y, inr e, p)
    | inr (c, q) ↦ (x, inl refl, q ∙ rw q at h)
  ]

-- The first answer over a sorted list is that of an element with the least key of those that answer.
module _ {A B : Type 0} (key : A → ℕ) (f : A → Option B) where
  pub record Best (xs : List A) (b : B) : Type 0 where
    pub of : A
    pub listed : Elem of xs
    pub answer : f of ≡ some b
    pub least : (x : A) → Elem x xs → f x ≢ none → key of ≤ key x

  above : (n : ℕ) (xs : List A) (x : A) → IsSortedFrom key n xs → Elem x xs → n ≤ key x
  above n [] x s e = absurd e
  above n (y ∷ xs) x s (inl p) = rw p s.0
  above n (y ∷ xs) x s (inr r) = let h = above (key y) xs x s.1 r in omega (arith, s.0)

  sorted-Best :
      (n : ℕ) (xs : List A) (b : B) → IsSortedFrom key n xs → first_some f xs ≡ some b → Best xs b
  sorted-Best n [] b s h = cc
  sorted-Best n (x ∷ xs) b s h = elim (Option-cases (f x)) [
    | inl q ↦
        let later = sorted-Best (key x) xs b s.1 (rw q at h) in
        record {
          of = later.of;
          listed = inr later.listed;
          answer = later.answer;
          least = λ y e d. elim e [ inl p ↦ absurd (d (rw p q)) | inr r ↦ later.least y r d ];
        }
    | inr (c, q) ↦ record {
      of = x;
      listed = inl refl;
      answer = q ∙ rw q at h;
      least = λ y e d. elim e [ inl p ↦ rw p (omega arith) | inr r ↦ above (key x) xs y s.1 r ];
    }
  ]

  pub sort_by-Best : (xs : List A) (b : B) → first_some f (sort_by key xs) ≡ some b → Best xs b
  sort_by-Best xs b h =
      let found = sorted-Best 0 (sort_by key xs) b (sort_by-IsSortedFrom key xs) h in
      record {
        of = found.of;
        listed = sort_by-Elem key found.of xs found.listed;
        answer = found.answer;
        least = λ x e d. found.least x (Elem-sort_by key x xs e) d;
      }
