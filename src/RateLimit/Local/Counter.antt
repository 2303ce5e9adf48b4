-- ===== src/RateLimit/Local/Counter.antt =====
-- The calls of `LocalQuotaCounter`, and the backend of a lease over it
-- (src/traffic/ratelimit/default.rs).
use pole_client_rust.Common.{
  ℕ, ◌+◌, ◌*◌, String, Bool, false, if◌then◌else◌, ◌==◌, ltb, ◌&&◌, Option, none, some, List, [],
  keep, is_empty, Table, lookup, insert, remove, add_u32, saturating_add_u32,
}
use pole_client_rust.Core.Error.{Result, ok, err, api_invalid_argument, invalid_state}
use pole_client_rust.Core.Outcome.{Outcome, value, failed, panicked}
use pole_client_rust.RateLimit.Req.{QuotaResource, QuotaRequest, second}
use pole_client_rust.RateLimit.Lease.{QuotaConsumption, Backend, consumed}
use pole_client_rust.RateLimit.Rule.{
  Amount, LimitTrigger, RateLimit, TriggerResource, trigger_qps, trigger_token, trigger_concurrency,
  trigger_other, initial_consumed_total, quota_counter_key, concurrency_counter_key,
}
use pole_client_rust.RateLimit.Local.{
  QuotaWindow, consumable, occupancy, LocalWindowReservation, LocalLeaseState, CompletedLocalLease,
  LocalQuotaState, LocalReserveResult, reserved_lease, rejected, not_configured, settle_local_lease,
  cleanup_expired_local_leases, validate_local_operation, Checked, check_windows, add_reserved,
}

abbrev pub Reply : Type 0
Reply = LocalQuotaState × Outcome LocalReserveResult

abbrev pub occupied_or_zero : Option ℕ → ℕ
occupied_or_zero none = 0
occupied_or_zero (some n) = n

-- The branch of `reserve` for concurrency; a rejection leaves the key's entry behind.
unfoldable pub reserve_concurrency : String → String → ℕ → ℕ → Option ℕ → LocalQuotaState → Reply
reserve_concurrency id key amount expires none s = (s, value not_configured)
reserve_concurrency id key amount expires (some max_amount) s =
    let occupied = occupied_or_zero (lookup key s.concurrency) in
    if max_amount == 0
    then (s, value not_configured)
    else if ltb max_amount (saturating_add_u32 occupied amount)
    then (record s { concurrency = insert key occupied s.concurrency }, value rejected)
    else (
      record s {
        concurrency = insert key (add_u32 occupied amount) s.concurrency;
        leases =
            insert id
              (record {
                accounting = occupancy;
                reserved_amount = amount;
                consumed_total = 0;
                sequence = 0;
                expires_at = expires;
                windows = [];
                concurrency_key = some key;
              })
              s.leases;
      },
      value reserved_lease,
    )

module _ (id : String) (amount initial expires : ℕ) where
  -- What follows the two loops of `reserve` over the windows.
  abbrev pub with_reserved :
      List LocalWindowReservation → LocalQuotaState → Option (Table QuotaWindow) → Reply
  with_reserved rs s none = (s, panicked)
  with_reserved rs s (some ws) = (
    record s {
      windows = ws;
      leases =
          insert id
            (record {
              accounting = consumable;
              reserved_amount = amount;
              consumed_total = initial;
              sequence = 0;
              expires_at = expires;
              windows = rs;
              concurrency_key = none;
            })
            s.leases;
    },
    value reserved_lease,
  )

  abbrev pub with_checked : LocalQuotaState → Checked → Reply
  with_checked s (ws, none) = (record s { windows = ws }, value rejected)
  with_checked s (ws, some rs) =
      with_reserved rs (record s { windows = ws }) (add_reserved amount rs ws)

  -- The branch of `reserve` for requests and tokens.
  unfoldable pub reserve_windows : ℕ → (ℕ → String) → List Amount → LocalQuotaState → Reply
  unfolding check_windows add_reserved
  reserve_windows now key_of all_amounts s =
      let amounts = keep (λ a. ltb 0 a.max_amount) all_amounts in
      if is_empty amounts
      then (s, value not_configured)
      else with_checked s (check_windows now key_of amount amounts s.windows)

module _ (digest : String → String) (checked_add : ℕ → ℕ → Option ℕ) where
  -- The `match` of `reserve` on the trigger's resource.
  abbrev pub reserve_by :
      TriggerResource
      → ℕ
      → String
      → QuotaRequest
      → RateLimit
      → LimitTrigger
      → ℕ
      → ℕ
      → LocalQuotaState
      → Reply
  reserve_by trigger_qps now id req rule trigger amount expires s =
      reserve_windows id amount (initial_consumed_total trigger) expires now
        (quota_counter_key digest req rule trigger) trigger.amounts s
  reserve_by trigger_token now id req rule trigger amount expires s =
      reserve_windows id amount (initial_consumed_total trigger) expires now
        (quota_counter_key digest req rule trigger) trigger.amounts s
  reserve_by trigger_concurrency now id req rule trigger amount expires s =
      reserve_concurrency id (concurrency_counter_key digest req rule trigger) amount expires
        trigger.concurrency_amount s
  reserve_by (trigger_other n) now id req rule trigger amount expires s = (s, value not_configured)

  abbrev pub reserve_until :
      ℕ → String → QuotaRequest → RateLimit → LimitTrigger → ℕ → Option ℕ → LocalQuotaState → Reply
  reserve_until now id req rule trigger amount none s = (s, failed api_invalid_argument)
  reserve_until now id req rule trigger amount (some expires) s =
      reserve_by trigger.resource now id req rule trigger amount expires s

  unfoldable pub reserve :
      ℕ → String → QuotaRequest → RateLimit → LimitTrigger → ℕ → LocalQuotaState → Reply
  unfolding cleanup_expired_local_leases reserve_concurrency reserve_windows
  reserve now id req rule trigger amount s =
      reserve_until now id req rule trigger amount (checked_add now req.lease_ttl)
        (cleanup_expired_local_leases now s)

abbrev pub Answer : Type 0
Answer = LocalQuotaState × Result (Unit {0})

abbrev pub store_update :
    String → LocalLeaseState → ℕ → ℕ → LocalQuotaState → Result (Unit {0}) → Answer
store_update id l total sequence s (err e) = (s, err e)
store_update id l total sequence s (ok u) = (
  record s {
    leases = insert id (record l { consumed_total = total; sequence = sequence }) s.leases;
  },
  ok tt,
)

abbrev pub update_found : String → ℕ → ℕ → LocalQuotaState → Option LocalLeaseState → Answer
update_found id total sequence s none = (s, err invalid_state)
update_found id total sequence s (some l) =
    if (sequence == l.sequence) && (total == l.consumed_total)
    then (s, ok tt)
    else store_update id l total sequence s (validate_local_operation l total sequence)

unfoldable pub update_lease : ℕ → String → ℕ → ℕ → LocalQuotaState → Answer
unfolding cleanup_expired_local_leases validate_local_operation
update_lease now id total sequence s =
    let s' = cleanup_expired_local_leases now s in
    update_found id total sequence s' (lookup id s'.leases)

-- The lease is removed, settled, and remembered as completed for 60 seconds.
abbrev pub settle_finish :
    ℕ → String → LocalLeaseState → ℕ → ℕ → LocalQuotaState → Result (Unit {0}) → Answer
settle_finish now id l total sequence s (err e) = (s, err e)
settle_finish now id l total sequence s (ok u) =
    let settled =
      settle_local_lease (record s { leases = remove id s.leases })
        (record l { consumed_total = total }) in
    (
      record settled {
        completed =
            insert id
              (record {
                consumed_total = total;
                sequence = sequence;
                expires_at = now + 60 * second;
              })
              settled.completed;
      },
      ok tt,
    )

abbrev pub finish_found : ℕ → String → ℕ → ℕ → LocalQuotaState → Option LocalLeaseState → Answer
finish_found now id total sequence s none = (s, err invalid_state)
finish_found now id total sequence s (some l) =
    settle_finish now id l total sequence s (validate_local_operation l total sequence)

abbrev pub is_completed : ℕ → ℕ → Option CompletedLocalLease → Bool
is_completed total sequence none = false
is_completed total sequence (some c) = (c.sequence == sequence) && (c.consumed_total == total)

unfoldable pub finish_lease : ℕ → String → ℕ → ℕ → LocalQuotaState → Answer
unfolding cleanup_expired_local_leases validate_local_operation settle_local_lease
finish_lease now id total sequence s =
    let s' = cleanup_expired_local_leases now s in
    if is_completed total sequence (lookup id s'.completed)
    then (s', ok tt)
    else finish_found now id total sequence s' (lookup id s'.leases)

unfoldable pub consumption_for : List QuotaConsumption → QuotaResource → Result ℕ
consumption_for cs r = elim (consumed cs r) [ none ↦ err api_invalid_argument | some n ↦ ok n ]

abbrev with_consumption : LocalQuotaState → Result ℕ → (ℕ → LocalQuotaState → Answer) → Answer
with_consumption s (err e) call = (s, err e)
with_consumption s (ok n) call = call n s

-- `LocalLeaseBackend`, with the reading of the clock for its calls.
unfoldable pub local_backend : ℕ → String → QuotaResource → Backend LocalQuotaState
unfolding consumption_for update_lease finish_lease
local_backend now id r = record {
  update =
      λ cs n s. with_consumption s (consumption_for cs r) (λ total. update_lease now id total n);
  finish =
      λ cs n s. with_consumption s (consumption_for cs r) (λ total. finish_lease now id total n);
  abandon = λ cs n s.
      (with_consumption s (consumption_for cs r) (λ total. finish_lease now id total n)).0;
}
