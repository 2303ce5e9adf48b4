-- ===== src/Common/Sort.antt =====
-- `slice::sort_by_key`: a stable sort by a numeric key, as insertion from the right.
use Prim.Native.Nat.{ℕ, ◌≤◌}
use mathlib.Core.Path.{◌≡◌, refl}
use mathlib.Core.Logic.{inl, inr}
use mathlib.Core.List.{List, [], ◌∷◌, Perm}
use mathlib.Core.List.Perm
use native.Mathlib.Omega.{arith}
use pole_client_rust.Common.Tests.{if◌then◌else◌, leb, Bool-cases, ◌==◌}
use pole_client_rust.Common.Lists.{All, Elem, keep}

module _ {A : Type 0} where
  unfoldable pub insert_by : (A → ℕ) → A → List A → List A
  insert_by key x [] = x ∷ []
  insert_by key x (y ∷ ys) = if leb (key x) (key y) then x ∷ y ∷ ys else y ∷ insert_by key x ys

  unfoldable pub sort_by : (A → ℕ) → List A → List A
  unfolding insert_by
  sort_by key [] = []
  sort_by key (x ∷ xs) = insert_by key x (sort_by key xs)

  -- Keys never fall along the list, and all are at least the bound.
  abbrev pub IsSortedFrom : (A → ℕ) → ℕ → List A → Type 0
  IsSortedFrom key n [] = Unit {0}
  IsSortedFrom key n (x ∷ xs) = (n ≤ key x) × IsSortedFrom key (key x) xs

  insert_by-IsSortedFrom :
      (key : A → ℕ) (x : A) (n : ℕ) (ys : List A)
      → n ≤ key x
      → IsSortedFrom key n ys
      → IsSortedFrom key n (insert_by key x ys)
  unfolding insert_by
  insert_by-IsSortedFrom key x n [] h s = (h, tt)
  insert_by-IsSortedFrom key x n (y ∷ ys) h s =
      ground (arith, insert_by-IsSortedFrom key x (key y) ys)

  pub sort_by-IsSortedFrom : (key : A → ℕ) (xs : List A) → IsSortedFrom key 0 (sort_by key xs)
  unfolding sort_by
  sort_by-IsSortedFrom key [] = tt
  sort_by-IsSortedFrom key (x ∷ xs) =
      insert_by-IsSortedFrom key x 0 (sort_by key xs) (omega arith) (sort_by-IsSortedFrom key xs)

  insert_by-perm : (key : A → ℕ) (x : A) (ys : List A) → Perm (insert_by key x ys) (x ∷ ys)
  unfolding insert_by
  insert_by-perm key x [] = Perm.refl _
  insert_by-perm key x (y ∷ ys) = elim (Bool-cases (leb (key x) (key y))) [
    | inl t ↦ rw t (Perm.refl _)
    | inr f ↦ rw f (Perm.trans (Perm.cons y (insert_by-perm key x ys)) (Perm.swap x y ys))
  ]

  pub sort_by-perm : (key : A → ℕ) (xs : List A) → Perm (sort_by key xs) xs
  unfolding sort_by
  sort_by-perm key [] = Perm.refl _
  sort_by-perm key (x ∷ xs) =
      Perm.trans (insert_by-perm key x (sort_by key xs)) (Perm.cons x (sort_by-perm key xs))

  -- Elements with one key keep their order.
  insert_by-stable :
      (key : A → ℕ) (k : ℕ) (x : A) (ys : List A)
      → keep (λ a. key a == k) (insert_by key x ys) ≡ keep (λ a. key a == k) (x ∷ ys)
  unfolding insert_by
  insert_by-stable key k x [] = refl
  insert_by-stable key k x (y ∷ ys) = ground (arith, insert_by-stable key k x ys)

  pub sort_by-stable :
      (key : A → ℕ) (k : ℕ) (xs : List A)
      → keep (λ a. key a == k) (sort_by key xs) ≡ keep (λ a. key a == k) xs
  unfolding sort_by
  sort_by-stable key k [] = refl
  sort_by-stable key k (x ∷ xs) =
      ground (arith, insert_by-stable key k x (sort_by key xs), sort_by-stable key k xs)

  insert_by-All :
      (P : A → Type 0) (key : A → ℕ) (x : A) (ys : List A)
      → P x
      → All P ys
      → All P (insert_by key x ys)
  unfolding insert_by
  insert_by-All P key x [] p h = (p, tt)
  insert_by-All P key x (y ∷ ys) p h = elim (Bool-cases (leb (key x) (key y))) [
    | inl t ↦ rw t (p, (h.0, h.1))
    | inr f ↦ rw f (h.0, insert_by-All P key x ys p h.1)
  ]

  pub sort_by-All : (P : A → Type 0) (key : A → ℕ) (xs : List A) → All P xs → All P (sort_by key xs)
  unfolding sort_by
  sort_by-All P key [] h = tt
  sort_by-All P key (x ∷ xs) h = insert_by-All P key x _ h.0 (sort_by-All P key xs h.1)

  insert_by-Elem :
      (key : A → ℕ) (a x : A) (ys : List A) → Elem a (insert_by key x ys) → Elem a (x ∷ ys)
  unfolding insert_by
  insert_by-Elem key a x [] e = e
  insert_by-Elem key a x (y ∷ ys) e = ground (arith, insert_by-Elem key a x ys)

  Elem-insert_by :
      (key : A → ℕ) (a x : A) (ys : List A) → Elem a (x ∷ ys) → Elem a (insert_by key x ys)
  unfolding insert_by
  Elem-insert_by key a x [] e = e
  Elem-insert_by key a x (y ∷ ys) e = ground (arith, Elem-insert_by key a x ys)

  pub sort_by-Elem : (key : A → ℕ) (a : A) (xs : List A) → Elem a (sort_by key xs) → Elem a xs
  unfolding sort_by
  sort_by-Elem key a [] e = e
  sort_by-Elem key a (x ∷ xs) e = elim (insert_by-Elem key a x (sort_by key xs) e) [
    | inl p ↦ inl p
    | inr q ↦ inr (sort_by-Elem key a xs q)
  ]

  pub Elem-sort_by : (key : A → ℕ) (a : A) (xs : List A) → Elem a xs → Elem a (sort_by key xs)
  unfolding sort_by
  Elem-sort_by key a [] e = e
  Elem-sort_by key a (x ∷ xs) (inl p) = Elem-insert_by key a x (sort_by key xs) (inl p)
  Elem-sort_by key a (x ∷ xs) (inr q) =
      Elem-insert_by key a x (sort_by key xs) (inr (Elem-sort_by key a xs q))
