-- ===== src/RateLimit/Local/Granted.antt =====
-- What a reservation leaves of the local counters (`LocalQuotaCounter::reserve` of
-- src/traffic/ratelimit/default.rs).
use pole_client_rust.Common.{
  ℕ, ◌≤◌, ◌<◌, ◌≡◌, ◌∙◌, ap, String, ltb, Option, none, some, List, [], ◌∷◌, map, keep, leb,
  is_empty, Bool-cases, Table, lookup, remove, lookup-remove, insert-AllValues, insert-IsUnique,
  sum-insert, at, inl, inr, arith, u32_max,
}
use pole_client_rust.Core.Outcome.{value, failed, panicked}
use pole_client_rust.RateLimit.Rule.{Amount, LimitTrigger, initial_consumed_total}
use pole_client_rust.RateLimit.Local.{
  QuotaWindow, LocalWindowReservation, consumable, LocalLeaseState, LocalQuotaState, reserved_lease,
  rejected, not_configured, settle_local_lease, settle_removed, settle_all, check_windows,
  add_reserved, cleanup_expired_local_leases, Checked,
}
use pole_client_rust.RateLimit.Local.Counter.{
  Reply, with_reserved, with_checked, reserve_concurrency, reserve_windows,
}
use pole_client_rust.RateLimit.Local.Balance.{IsWithin, holds, Balanced}
use pole_client_rust.RateLimit.Local.Steps.{IsGranted, reserve_concurrency-IsGranted}

settle_leases :
    (s : LocalQuotaState) (l : LocalLeaseState) → (settle_local_lease s l).leases ≡ s.leases
unfolding settle_local_lease
settle_leases s l = ground arith

settle_removed-absent :
    (id j : String) (s : LocalQuotaState) (o : Option LocalLeaseState)
    → lookup id s.leases ≡ none
    → lookup id (settle_removed j s o).leases ≡ none
settle_removed-absent id j s none h = h
settle_removed-absent id j s (some l) h =
    ap (lookup id) (settle_leases (record s { leases = remove j s.leases }) l)
    ∙ ground (arith, lookup-remove j id s.leases)

settle_all-absent :
    (id : String) (ids : List String) (s : LocalQuotaState)
    → lookup id s.leases ≡ none
    → lookup id (settle_all ids s).leases ≡ none
unfolding settle_all
settle_all-absent id [] s h = h
settle_all-absent id (j ∷ ids) s h =
    settle_all-absent id ids (settle_removed j s (lookup j s.leases))
      (settle_removed-absent id j s (lookup j s.leases) h)

pub cleanup-absent :
    (now : ℕ) (id : String) (s : LocalQuotaState)
    → lookup id s.leases ≡ none
    → lookup id (cleanup_expired_local_leases now s).leases ≡ none
unfolding cleanup_expired_local_leases
cleanup-absent now id s h =
    settle_all-absent id (map (λ e. e.0) (keep (λ e. leb e.1.expires_at now) s.leases)) s h

module _ (id : String) (amount initial expires : ℕ) where
  abbrev consuming : List LocalWindowReservation → LocalLeaseState
  consuming rs = record {
    accounting = consumable;
    reserved_amount = amount;
    consumed_total = initial;
    sequence = 0;
    expires_at = expires;
    windows = rs;
    concurrency_key = none;
  }

  with_reserved-Balanced :
      (rs : List LocalWindowReservation) (s : LocalQuotaState) (o : Option (Table QuotaWindow))
      → Balanced s
      → lookup id s.leases ≡ none
      → initial ≤ amount
      → Balanced (with_reserved id amount initial expires rs s o).0
  with_reserved-Balanced rs s none b fresh w = b
  with_reserved-Balanced rs s (some ws) b fresh w = record {
    unique = insert-IsUnique id (consuming rs) s.leases b.unique;
    exact = λ key. omega (
      arith,
      b.exact key,
      sum-insert (holds key) id (consuming rs) s.leases b.unique,
      ap (at (holds key)) fresh,
    );
    within = insert-AllValues IsWithin id (consuming rs) s.leases w b.within;
  }

  with_checked-Balanced :
      (s : LocalQuotaState) (c : Checked)
      → Balanced s
      → lookup id s.leases ≡ none
      → initial ≤ amount
      → Balanced (with_checked id amount initial expires s c).0
  with_checked-Balanced s (ws, none) b fresh w = record {
    unique = b.unique;
    exact = b.exact;
    within = b.within;
  }
  with_checked-Balanced s (ws, some rs) b fresh w =
      with_reserved-Balanced rs (record s { windows = ws }) (add_reserved amount rs ws)
        (record { unique = b.unique; exact = b.exact; within = b.within }) fresh w

  pub reserve_windows-Balanced :
      (now : ℕ) (key_of : ℕ → String) (amounts : List Amount) (s : LocalQuotaState)
      → Balanced s
      → lookup id s.leases ≡ none
      → initial ≤ amount
      → Balanced (reserve_windows id amount initial expires now key_of amounts s).0
  unfolding reserve_windows
  reserve_windows-Balanced now key_of amounts s b fresh w =
      let asked = keep (λ (a : Amount). ltb 0 a.max_amount) amounts in
      elim (Bool-cases (is_empty asked)) [
        | inl t ↦ rw t b
        | inr f ↦
            rw f
              (with_checked-Balanced s (check_windows now key_of amount asked s.windows) b fresh w)
      ]

-- The limit of a trigger's concurrency is not the largest u32.
abbrev pub LeavesRoom : Option ℕ → Type 0
LeavesRoom none = Unit {0}
LeavesRoom (some max_amount) = max_amount < u32_max

pub granted-Balanced :
    (key : String) (max_amount : ℕ) (r : Reply) → IsGranted key max_amount r → Balanced r.0
granted-Balanced key max_amount (s, value reserved_lease) g = g.0
granted-Balanced key max_amount (s, value rejected) g = g
granted-Balanced key max_amount (s, value not_configured) g = g
granted-Balanced key max_amount (s, failed e) g = g
granted-Balanced key max_amount (s, panicked) g = g

pub initial_bound : (t : LimitTrigger) (amount : ℕ) → 0 < amount → initial_consumed_total t ≤ amount
unfolding initial_consumed_total
initial_bound t amount h = ground arith

pub not_limited-Balanced :
    (id key : String) (amount expires : ℕ) (limit : Option ℕ) (s : LocalQuotaState)
    → Balanced s
    → lookup id s.leases ≡ none
    → LeavesRoom limit
    → Balanced (reserve_concurrency id key amount expires limit s).0
unfolding reserve_concurrency
not_limited-Balanced id key amount expires none s b fresh l = b
not_limited-Balanced id key amount expires (some max_amount) s b fresh l =
    granted-Balanced key max_amount _
      (reserve_concurrency-IsGranted id key amount expires max_amount s b fresh l)
