-- ===== src/RateLimit/Local/Balance.antt =====
-- The occupied concurrency of the local counters, against the leases that hold it
-- (src/traffic/ratelimit/default.rs).
use pole_client_rust.Common.{
  ℕ, ◌+◌, ◌-◌, ◌≤◌, ◌≡◌, ◌⊎◌, refl, ap, String, str_eq, str_eq_iff, if◌then◌else◌, leb, Option,
  none, some, List, [], ◌∷◌, map, keep, Table, lookup, insert, remove, lookup-insert, lookup-remove,
  AllValues, insert-AllValues, remove-AllValues, IsUnique, remove-IsUnique, insert-IsUnique, at,
  sum, sum-remove, sum-insert, Option-cases, inl, inr, arith,
}
use pole_client_rust.RateLimit.Local.{
  LocalAccounting, consumable, occupancy, LocalLeaseState, LocalQuotaState, settle_concurrency,
  settle_local_lease, settle_removed, settle_all, cleanup_expired_local_leases,
}
use pole_client_rust.RateLimit.Local.Counter.{occupied_or_zero}

-- What a lease holds of a key's concurrency.
abbrev pub amount_at : String → ℕ → Option String → ℕ
amount_at key amount none = 0
amount_at key amount (some k) = if str_eq k key then amount else 0

abbrev pub holds_as : LocalAccounting → ℕ → ℕ
holds_as consumable n = 0
holds_as occupancy n = n

abbrev pub holds : String → LocalLeaseState → ℕ
holds key l = holds_as l.accounting (amount_at key l.reserved_amount l.concurrency_key)

-- What the live leases hold of a key.
abbrev pub held : String → LocalQuotaState → ℕ
held key s = sum (holds key) s.leases

abbrev pub occupied : String → LocalQuotaState → ℕ
occupied key s = occupied_or_zero (lookup key s.concurrency)

abbrev pub IsWithin : LocalLeaseState → Type 0
IsWithin l = l.consumed_total ≤ l.reserved_amount

-- The counter of each key is the sum of what the live leases hold, and no lease consumes more than
-- it reserved.
pub record Balanced (s : LocalQuotaState) : Type 0 where
  pub unique : IsUnique s.leases
  pub exact : (key : String) → occupied key s ≡ held key s
  pub within : AllValues IsWithin s.leases

settle_concurrency-occupied :
    (k : Option String) (amount : ℕ) (table : Table ℕ) (key : String)
    → occupied_or_zero (lookup key (settle_concurrency k amount table))
      ≡ occupied_or_zero (lookup key table) - amount_at key amount k
unfolding settle_concurrency
settle_concurrency-occupied none amount table key = omega arith
settle_concurrency-occupied (some k) amount table key = elim (Option-cases (lookup k table)) [
  | inl absent ↦ rw (settle_concurrency, absent) (ground (arith, str_eq_iff k key, absent))
  | inr (n, present) ↦
      rw (settle_concurrency, present)
        (ground (
          arith,
          str_eq_iff k key,
          present,
          lookup-insert k key (n - amount) table,
          lookup-remove k key table,
        ))
]

LocalAccounting-cases : (a : LocalAccounting) → (a ≡ consumable) ⊎ (a ≡ occupancy)
LocalAccounting-cases consumable = inl refl
LocalAccounting-cases occupancy = inr refl

-- Settling a lease that is no longer among the live ones gives back what it held.
settle-Balanced :
    (s : LocalQuotaState) (l : LocalLeaseState)
    → IsUnique s.leases
    → AllValues IsWithin s.leases
    → ((key : String) → occupied key s ≡ held key s + holds key l)
    → Balanced (settle_local_lease s l)
unfolding settle_local_lease
settle-Balanced s l u w e = elim (LocalAccounting-cases l.accounting) [
  | inl c ↦
      rw (settle_local_lease, c)
        (record {
          unique = u;
          exact = λ key. omega (
            arith,
            e key,
            ap (λ a. holds_as a (amount_at key l.reserved_amount l.concurrency_key)) c,
          );
          within = w;
        })
  | inr o ↦
      rw (settle_local_lease, o)
        (record {
          unique = u;
          exact = λ key. omega (
            arith,
            e key,
            ap (λ a. holds_as a (amount_at key l.reserved_amount l.concurrency_key)) o,
            settle_concurrency-occupied l.concurrency_key l.reserved_amount s.concurrency key,
          );
          within = w;
        })
]

pub removed-Balanced :
    (id : String) (s : LocalQuotaState) (l : LocalLeaseState)
    → Balanced s
    → lookup id s.leases ≡ some l
    → (total : ℕ)
    → Balanced (
        settle_local_lease
          (record s { leases = remove id s.leases })
          (record l { consumed_total = total }))
removed-Balanced id s l b found total =
    settle-Balanced (record s { leases = remove id s.leases }) (record l { consumed_total = total })
      (remove-IsUnique id s.leases b.unique) (remove-AllValues IsWithin id s.leases b.within)
      (λ key. omega (
        arith,
        b.exact key,
        sum-remove (holds key) id s.leases b.unique,
        ap (at (holds key)) found,
      ))

settle_removed-Balanced :
    (id : String) (s : LocalQuotaState) (o : Option LocalLeaseState)
    → Balanced s
    → lookup id s.leases ≡ o
    → Balanced (settle_removed id s o)
settle_removed-Balanced id s none b h = b
settle_removed-Balanced id s (some l) b h = removed-Balanced id s l b h l.consumed_total

settle_all-Balanced :
    (ids : List String) (s : LocalQuotaState) → Balanced s → Balanced (settle_all ids s)
unfolding settle_all
settle_all-Balanced [] s b = b
settle_all-Balanced (id ∷ ids) s b =
    settle_all-Balanced ids (settle_removed id s (lookup id s.leases))
      (settle_removed-Balanced id s (lookup id s.leases) b refl)

pub cleanup-Balanced :
    (now : ℕ) (s : LocalQuotaState) → Balanced s → Balanced (cleanup_expired_local_leases now s)
unfolding cleanup_expired_local_leases
cleanup-Balanced now s b =
    let expired = map (λ e. e.0) (keep (λ e. leb e.1.expires_at now) s.leases) in
    let settled = settle_all-Balanced expired s b in
    record { unique = settled.unique; exact = settled.exact; within = settled.within }

-- A lease that is written anew holds what it held before.
pub stored-Balanced :
    (id : String) (s : LocalQuotaState) (l l' : LocalLeaseState)
    → Balanced s
    → lookup id s.leases ≡ some l
    → ((key : String) → holds key l' ≡ holds key l)
    → IsWithin l'
    → Balanced (record s { leases = insert id l' s.leases })
stored-Balanced id s l l' b found same w = record {
  unique = insert-IsUnique id l' s.leases b.unique;
  exact = λ key. omega (
    arith,
    b.exact key,
    sum-insert (holds key) id l' s.leases b.unique,
    ap (at (holds key)) found,
    same key,
  );
  within = insert-AllValues IsWithin id l' s.leases w b.within;
}
