-- ===== src/RateLimit/Local/Steps.antt =====
-- Calls on the local counters one after another (`LocalQuotaCounter` of
-- src/traffic/ratelimit/default.rs): the concurrency that is given out.
use pole_client_rust.Common.{
  ℕ, ◌+◌, ◌≤◌, ◌<◌, ◌≡◌, refl, ap, String, str_eq, str_eq_iff, false, if◌then◌else◌, ◌==◌, ltb,
  Option, none, some, [], lookup, insert, lookup-insert, insert-AllValues, insert-IsUnique, at,
  sum-insert, if_both, Bool-cases, inl, inr, arith, u32_max, add_u32, saturating_add_u32,
  str_eq_refl,
}
use pole_client_rust.Core.Error.{Result, ok, err}
use pole_client_rust.Core.Outcome.{value}
use pole_client_rust.RateLimit.Local.{
  occupancy, LocalLeaseState, LocalQuotaState, reserved_lease, validate_local_operation,
  cleanup_expired_local_leases,
}
use pole_client_rust.RateLimit.Local.Counter.{
  Reply, update_found, store_update, finish_found, settle_finish, reserve_concurrency, Answer,
  update_lease, finish_lease,
}
use pole_client_rust.RateLimit.Local.Balance.{
  IsWithin, held, holds, occupied, Balanced, cleanup-Balanced, removed-Balanced, stored-Balanced,
}

validated :
    (l : LocalLeaseState) (total sequence : ℕ)
    → validate_local_operation l total sequence ≡ ok tt
    → total ≤ l.reserved_amount
unfolding validate_local_operation
validated l total sequence h = ground arith

store_update-Balanced :
    (id : String) (l : LocalLeaseState) (total sequence : ℕ) (s : LocalQuotaState)
    (r : Result (Unit {0}))
    → Balanced s
    → lookup id s.leases ≡ some l
    → validate_local_operation l total sequence ≡ r
    → Balanced (store_update id l total sequence s r).0
store_update-Balanced id l total sequence s (err e) b found h = b
store_update-Balanced id l total sequence s (ok u) b found h =
    stored-Balanced id s l (record l { consumed_total = total; sequence = sequence }) b found
      (λ key. refl) (validated l total sequence h)

update_found-Balanced :
    (id : String) (total sequence : ℕ) (s : LocalQuotaState) (o : Option LocalLeaseState)
    → Balanced s
    → lookup id s.leases ≡ o
    → Balanced (update_found id total sequence s o).0
update_found-Balanced id total sequence s none b found = b
update_found-Balanced id total sequence s (some l) b found =
    if_both (λ (a : Answer). Balanced a.0) _ _ _ b
      (store_update-Balanced id l total sequence s _ b found refl)

pub update_lease-Balanced :
    (now : ℕ) (id : String) (total sequence : ℕ) (s : LocalQuotaState)
    → Balanced s
    → Balanced (update_lease now id total sequence s).0
unfolding update_lease
update_lease-Balanced now id total sequence s b =
    update_found-Balanced id total sequence (cleanup_expired_local_leases now s) _
      (cleanup-Balanced now s b) refl

settle_finish-Balanced :
    (now : ℕ) (id : String) (l : LocalLeaseState) (total sequence : ℕ) (s : LocalQuotaState)
    (r : Result (Unit {0}))
    → Balanced s
    → lookup id s.leases ≡ some l
    → Balanced (settle_finish now id l total sequence s r).0
settle_finish-Balanced now id l total sequence s (err e) b found = b
settle_finish-Balanced now id l total sequence s (ok u) b found =
    let settled = removed-Balanced id s l b found total in
    record { unique = settled.unique; exact = settled.exact; within = settled.within }

finish_found-Balanced :
    (now : ℕ) (id : String) (total sequence : ℕ) (s : LocalQuotaState) (o : Option LocalLeaseState)
    → Balanced s
    → lookup id s.leases ≡ o
    → Balanced (finish_found now id total sequence s o).0
finish_found-Balanced now id total sequence s none b found = b
finish_found-Balanced now id total sequence s (some l) b found =
    settle_finish-Balanced now id l total sequence s _ b found

pub finish_lease-Balanced :
    (now : ℕ) (id : String) (total sequence : ℕ) (s : LocalQuotaState)
    → Balanced s
    → Balanced (finish_lease now id total sequence s).0
unfolding finish_lease
finish_lease-Balanced now id total sequence s b =
    let clean = cleanup-Balanced now s b in
    if_both (λ (a : Answer). Balanced a.0) _ _ _ clean
      (finish_found-Balanced now id total sequence (cleanup_expired_local_leases now s) _ clean
        refl)

-- An entry that is made for a key, with what it counted before, changes nothing.
touched-Balanced :
    (key : String) (s : LocalQuotaState)
    → Balanced s
    → Balanced (record s { concurrency = insert key (occupied key s) s.concurrency })
touched-Balanced key s b = record {
  unique = b.unique;
  exact = λ j.
      ground
        (arith, b.exact j, str_eq_iff key j, lookup-insert key j (occupied key s) s.concurrency);
  within = b.within;
}

room :
    (occ amount max_amount : ℕ)
    → max_amount < u32_max
    → ltb max_amount (saturating_add_u32 occ amount) ≡ false
    → (add_u32 occ amount ≡ occ + amount) × (occ + amount ≤ max_amount)
room occ amount max_amount small h = ground arith

abbrev occupying : String → ℕ → ℕ → LocalLeaseState
occupying key amount expires = record {
  accounting = occupancy;
  reserved_amount = amount;
  consumed_total = 0;
  sequence = 0;
  expires_at = expires;
  windows = [];
  concurrency_key = some key;
}

abbrev taken : String → String → ℕ → ℕ → LocalQuotaState → LocalQuotaState
taken id key amount expires s = record s {
  concurrency = insert key (add_u32 (occupied key s) amount) s.concurrency;
  leases = insert id (occupying key amount expires) s.leases;
}

taken-held :
    (id key : String) (amount expires : ℕ) (s : LocalQuotaState)
    → Balanced s
    → lookup id s.leases ≡ none
    → (j : String)
    → held j (taken id key amount expires s) ≡ held j s + (if str_eq key j then amount else 0)
taken-held id key amount expires s b fresh j = omega (
  arith,
  sum-insert (holds j) id (occupying key amount expires) s.leases b.unique,
  ap (at (holds j)) fresh,
)

taken-Balanced :
    (id key : String) (amount expires : ℕ) (s : LocalQuotaState)
    → Balanced s
    → lookup id s.leases ≡ none
    → add_u32 (occupied key s) amount ≡ occupied key s + amount
    → Balanced (taken id key amount expires s)
taken-Balanced id key amount expires s b fresh exact_sum = record {
  unique = insert-IsUnique id (occupying key amount expires) s.leases b.unique;
  exact = λ j. ground (
    arith,
    b.exact j,
    taken-held id key amount expires s b fresh j,
    exact_sum,
    str_eq_iff key j,
    lookup-insert key j (add_u32 (occupied key s) amount) s.concurrency,
  );
  within =
      insert-AllValues IsWithin id (occupying key amount expires) s.leases (omega arith) b.within;
}

-- What a reservation of concurrency leaves: balanced counters, and no key beyond the limit if the
-- reservation was granted.
abbrev pub IsGranted : String → ℕ → Reply → Type 0
IsGranted key max_amount (s, value reserved_lease) = Balanced s × (held key s ≤ max_amount)
IsGranted key max_amount (s, _) = Balanced s

pub reserve_concurrency-IsGranted :
    (id key : String) (amount expires max_amount : ℕ) (s : LocalQuotaState)
    → Balanced s
    → lookup id s.leases ≡ none
    → max_amount < u32_max
    → IsGranted key max_amount (reserve_concurrency id key amount expires (some max_amount) s)
unfolding reserve_concurrency
reserve_concurrency-IsGranted id key amount expires max_amount s b fresh small =
    elim (Bool-cases (max_amount == 0)) [
      | inl none_allowed ↦ rw (reserve_concurrency, none_allowed) b
      | inr allowed ↦
          elim (Bool-cases (ltb max_amount (saturating_add_u32 (occupied key s) amount))) [
            | inl full ↦ rw (reserve_concurrency, allowed, full) (touched-Balanced key s b)
            | inr free ↦
                let (exact_sum, bound) = room (occupied key s) amount max_amount small free in
                rw (reserve_concurrency, allowed, free)
                  (
                    taken-Balanced id key amount expires s b fresh exact_sum,
                    omega (
                      arith,
                      bound,
                      b.exact key,
                      taken-held id key amount expires s b fresh key,
                      ap (λ t. if t then amount else 0) (str_eq_refl key),
                    ),
                  )
          ]
    ]
