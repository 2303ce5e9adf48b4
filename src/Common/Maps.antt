-- ===== src/Common/Maps.antt =====
-- `HashMap<String, V>` as an association list with at most one entry for a key. The program does
-- not rely on the order of iteration.
use Prim.Native.String.{String}
use mathlib.Core.Path.{◌≡◌, refl}
use mathlib.Core.Logic.{inl, inr}
use mathlib.Core.Option.{Option, none, some}
use mathlib.Core.List.{List, [], ◌∷◌}
use native.Mathlib.Omega.{arith}
use pole_client_rust.Common.Tests.{if◌then◌else◌, Bool-cases}
use pole_client_rust.Common.Text.{str_eq, str_eq_iff}

abbrev pub Table {ℓ} : Type ℓ → Type ℓ
Table V = List (String × V)

module _ {ℓ} {V : Type ℓ} where
  unfoldable pub lookup : String → Table V → Option V
  lookup k [] = none
  lookup k ((j, v) ∷ m) = if str_eq j k then some v else lookup k m

  unfoldable pub insert : String → V → Table V → Table V
  insert k v [] = (k, v) ∷ []
  insert k v ((j, w) ∷ m) = if str_eq j k then (k, v) ∷ m else (j, w) ∷ insert k v m

  unfoldable pub remove : String → Table V → Table V
  remove k [] = []
  remove k ((j, w) ∷ m) = let rest = remove k m in if str_eq j k then rest else (j, w) ∷ rest

  pub lookup-insert :
      (k j : String) (v : V) (m : Table V)
      → lookup j (insert k v m) ≡ (if str_eq k j then some v else lookup j m)
  unfolding lookup insert
  lookup-insert k j v [] = refl
  lookup-insert k j v ((i, w) ∷ m) =
      ground (arith, str_eq_iff k j, str_eq_iff i k, str_eq_iff i j, lookup-insert k j v m)

  -- An entry that is written again.
  pub insert_same : (k : String) (v : V) (m : Table V) → lookup k m ≡ some v → insert k v m ≡ m
  unfolding lookup insert
  insert_same k v [] h = cc
  insert_same k v ((j, w) ∷ m) h = ground (arith, str_eq_iff j k, insert_same k v m)

  pub lookup-remove :
      (k j : String) (m : Table V)
      → lookup j (remove k m) ≡ (if str_eq k j then none else lookup j m)
  unfolding lookup remove
  lookup-remove k j [] = ground arith
  lookup-remove k j ((i, w) ∷ m) =
      ground (arith, str_eq_iff k j, str_eq_iff i k, str_eq_iff i j, lookup-remove k j m)

-- A predicate at every value of a table.
module _ {V : Type 0} (P : V → Type 0) where
  abbrev pub AllValues : Table V → Type 0
  AllValues [] = Unit {0}
  AllValues ((k, v) ∷ m) = P v × AllValues m

  abbrev pub AllSome : Option V → Type 0
  AllSome none = Unit {0}
  AllSome (some v) = P v

  pub lookup-AllSome : (k : String) (m : Table V) → AllValues m → AllSome (lookup k m)
  unfolding lookup
  lookup-AllSome k [] a = tt
  lookup-AllSome k ((j, v) ∷ m) a = elim (Bool-cases (str_eq j k)) [
    | inl t ↦ rw t a.0
    | inr f ↦ rw f (lookup-AllSome k m a.1)
  ]

  pub insert-AllValues :
      (k : String) (v : V) (m : Table V) → P v → AllValues m → AllValues (insert k v m)
  unfolding insert
  insert-AllValues k v [] p a = (p, tt)
  insert-AllValues k v ((j, w) ∷ m) p a = elim (Bool-cases (str_eq j k)) [
    | inl t ↦ rw t (p, a.1)
    | inr f ↦ rw f (a.0, insert-AllValues k v m p a.1)
  ]

  pub remove-AllValues : (k : String) (m : Table V) → AllValues m → AllValues (remove k m)
  unfolding remove
  remove-AllValues k [] a = tt
  remove-AllValues k ((j, w) ∷ m) a = elim (Bool-cases (str_eq j k)) [
    | inl t ↦ rw t (remove-AllValues k m a.1)
    | inr f ↦ rw f (a.0, remove-AllValues k m a.1)
  ]
