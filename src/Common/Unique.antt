-- ===== src/Common/Unique.antt =====
-- Tables with at most one entry for a key, and sums over their values.
use Prim.Native.Nat.{ℕ, ◌+◌}
use Prim.Native.String.{String}
use mathlib.Core.Path.{◌≡◌, refl, sym, subst}
use mathlib.Core.Logic.{inl, inr}
use mathlib.Core.Option.{Option, none, some}
use mathlib.Core.List.{[], ◌∷◌}
use native.Mathlib.Omega.{arith}
use pole_client_rust.Common.Tests.{Bool-cases}
use pole_client_rust.Common.Text.{str_eq, str_eq_iff}
use pole_client_rust.Common.Maps.{Table, lookup, insert, remove, lookup-insert, lookup-remove}

module _ {V : Type 0} where
  abbrev pub IsUnique : Table V → Type 0
  IsUnique [] = Unit {0}
  IsUnique ((k, v) ∷ m) = (lookup k m ≡ none) × IsUnique m

  pub remove_absent : (k : String) (m : Table V) → lookup k m ≡ none → remove k m ≡ m
  unfolding lookup remove
  remove_absent k [] h = refl
  remove_absent k ((j, v) ∷ m) h = ground (arith, remove_absent k m)

  pub remove-IsUnique : (k : String) (m : Table V) → IsUnique m → IsUnique (remove k m)
  unfolding remove
  remove-IsUnique k [] u = tt
  remove-IsUnique k ((j, v) ∷ m) u = elim (Bool-cases (str_eq j k)) [
    | inl t ↦ rw t (remove-IsUnique k m u.1)
    | inr f ↦
        let absent : lookup j (remove k m) ≡ none = ground (arith, lookup-remove k j m, u.0) in
        rw f (absent, remove-IsUnique k m u.1)
  ]

  pub insert-IsUnique : (k : String) (v : V) (m : Table V) → IsUnique m → IsUnique (insert k v m)
  unfolding insert lookup
  insert-IsUnique k v [] u = (refl, tt)
  insert-IsUnique k v ((j, w) ∷ m) u = elim (Bool-cases (str_eq j k)) [
    | inl t ↦ let same = (str_eq_iff j k).0 t in rw t (subst (λ x. lookup x m ≡ none) same u.0, u.1)
    | inr f ↦
        let absent : lookup j (insert k v m) ≡ none =
          ground (arith, lookup-insert k j v m, u.0, str_eq_iff j k, str_eq_iff k j) in
        rw f (absent, insert-IsUnique k v m u.1)
  ]

-- The sum of a measure over the values of a table.
module _ {V : Type 0} (f : V → ℕ) where
  abbrev pub at : Option V → ℕ
  at none = 0
  at (some v) = f v

  abbrev pub sum : Table V → ℕ
  sum [] = 0
  sum ((k, v) ∷ m) = f v + sum m

  pub sum-remove :
      (k : String) (m : Table V) → IsUnique m → sum m ≡ sum (remove k m) + at (lookup k m)
  unfolding lookup remove
  sum-remove k [] u = refl
  sum-remove k ((j, v) ∷ m) u = elim (Bool-cases (str_eq j k)) [
    | inl t ↦
        let gone : remove k m ≡ m = remove_absent k m (rw (sym ((str_eq_iff j k).0 t)) u.0) in
        rw (t, gone) (omega arith)
    | inr n ↦ rw n (omega (arith, sum-remove k m u.1))
  ]

  -- An entry that is written takes the place of the one before.
  pub sum-insert :
      (k : String) (v : V) (m : Table V)
      → IsUnique m
      → sum (insert k v m) + at (lookup k m) ≡ sum m + f v
  unfolding lookup insert
  sum-insert k v [] u = omega arith
  sum-insert k v ((j, w) ∷ m) u = elim (Bool-cases (str_eq j k)) [
    | inl t ↦ rw t (omega arith)
    | inr n ↦ rw n (omega (arith, sum-insert k v m u.1))
  ]
