-- ===== src/RateLimit/Local/Reach.antt =====
-- Every state of the local counters that their calls reach, and what a reservation of concurrency
-- then promises (`LocalQuotaCounter` of src/traffic/ratelimit/default.rs).
use pole_client_rust.Common.{
  ℕ, ◌≤◌, ◌<◌, ◌≡◌, refl, String, Option, none, some, lookup, Option-cases, inl, inr, u32_max,
}
use pole_client_rust.Core.Outcome.{value, failed, panicked}
use pole_client_rust.RateLimit.Req.{QuotaRequest}
use pole_client_rust.RateLimit.Rule.{
  RateLimit, LimitTrigger, TriggerResource, trigger_qps, trigger_token, trigger_concurrency,
  trigger_other, initial_consumed_total, quota_counter_key, concurrency_counter_key,
}
use pole_client_rust.RateLimit.Local.{
  LocalQuotaState, empty_state, reserved_lease, rejected, not_configured,
  cleanup_expired_local_leases,
}
use pole_client_rust.RateLimit.Local.Counter.{
  Reply, reserve_concurrency, reserve_by, reserve_until, reserve, update_lease, finish_lease,
}
use pole_client_rust.RateLimit.Local.Balance.{held, Balanced, cleanup-Balanced}
use pole_client_rust.RateLimit.Local.Steps.{
  update_lease-Balanced, finish_lease-Balanced, IsGranted, reserve_concurrency-IsGranted,
}
use pole_client_rust.RateLimit.Local.Granted.{
  cleanup-absent, initial_bound, not_limited-Balanced, reserve_windows-Balanced, LeavesRoom,
}

module _ (digest : String → String) (checked_add : ℕ → ℕ → Option ℕ) where
  -- The states that calls reach from the empty one: reservations under a new id and of a positive
  -- amount, updates and finishes, at any times.
  pub data Reached : LocalQuotaState → Type 0 where
    start : Reached empty_state
    reserved :
        (now : ℕ) (id : String) (req : QuotaRequest) (rule : RateLimit) (trigger : LimitTrigger)
        (amount : ℕ) (s : LocalQuotaState)
        → Reached s
        → lookup id s.leases ≡ none
        → 0 < amount
        → LeavesRoom trigger.concurrency_amount
        → Reached (reserve digest checked_add now id req rule trigger amount s).0
    updated :
        (now : ℕ) (id : String) (total sequence : ℕ) (s : LocalQuotaState)
        → Reached s
        → Reached (update_lease now id total sequence s).0
    finished :
        (now : ℕ) (id : String) (total sequence : ℕ) (s : LocalQuotaState)
        → Reached s
        → Reached (finish_lease now id total sequence s).0

  reserve_by-Balanced :
      (resource : TriggerResource) (now : ℕ) (id : String) (req : QuotaRequest) (rule : RateLimit)
      (trigger : LimitTrigger) (amount expires : ℕ) (s : LocalQuotaState)
      → Balanced s
      → lookup id s.leases ≡ none
      → 0 < amount
      → LeavesRoom trigger.concurrency_amount
      → Balanced (reserve_by digest checked_add resource now id req rule trigger amount expires s).0
  reserve_by-Balanced (trigger_other n) now id req rule trigger amount expires s b fresh positive
        l =
      b
  reserve_by-Balanced trigger_concurrency now id req rule trigger amount expires s b fresh positive
        l =
      not_limited-Balanced id (concurrency_counter_key digest req rule trigger) amount expires
        trigger.concurrency_amount s b fresh l
  reserve_by-Balanced trigger_qps now id req rule trigger amount expires s b fresh positive l =
      reserve_windows-Balanced id amount (initial_consumed_total trigger) expires now
        (quota_counter_key digest req rule trigger) trigger.amounts s b fresh
        (initial_bound trigger amount positive)
  reserve_by-Balanced trigger_token now id req rule trigger amount expires s b fresh positive l =
      reserve_windows-Balanced id amount (initial_consumed_total trigger) expires now
        (quota_counter_key digest req rule trigger) trigger.amounts s b fresh
        (initial_bound trigger amount positive)

  reserve_until-Balanced :
      (now : ℕ) (id : String) (req : QuotaRequest) (rule : RateLimit) (trigger : LimitTrigger)
      (amount : ℕ) (expires : Option ℕ) (s : LocalQuotaState)
      → Balanced s
      → lookup id s.leases ≡ none
      → 0 < amount
      → LeavesRoom trigger.concurrency_amount
      → Balanced (reserve_until digest checked_add now id req rule trigger amount expires s).0
  reserve_until-Balanced now id req rule trigger amount none s b fresh positive l = b
  reserve_until-Balanced now id req rule trigger amount (some expires) s b fresh positive l =
      reserve_by-Balanced trigger.resource now id req rule trigger amount expires s b fresh positive
        l

  -- In every state that is reached by reservations (under new ids, of positive amounts, and with
  -- limits of concurrency other than 2^32 - 1), updates and finishes, the counter of each key is the
  -- sum of the amounts that the live leases hold of it, and no lease has consumed more than it
  -- reserved.
  pub Reached-Balanced : (s : LocalQuotaState) → Reached s → Balanced s
  unfolding empty_state reserve lookup
  Reached-Balanced _ start = record { unique = tt; exact = λ key. refl; within = tt }
  Reached-Balanced _ (reserved now id req rule trigger amount s r fresh positive l) =
      reserve_until-Balanced now id req rule trigger amount _ (cleanup_expired_local_leases now s)
        (cleanup-Balanced now s (Reached-Balanced s r)) (cleanup-absent now id s fresh) positive l
  Reached-Balanced _ (updated now id total sequence s r) =
      update_lease-Balanced now id total sequence s (Reached-Balanced s r)
  Reached-Balanced _ (finished now id total sequence s r) =
      finish_lease-Balanced now id total sequence s (Reached-Balanced s r)

  granted-held :
      (key : String) (max_amount : ℕ) (r : Reply)
      → IsGranted key max_amount r
      → r.1 ≡ value reserved_lease
      → held key r.0 ≤ max_amount
  granted-held key max_amount (s, value reserved_lease) g h = g.1
  granted-held key max_amount (s, value rejected) g h = cc
  granted-held key max_amount (s, value not_configured) g h = cc
  granted-held key max_amount (s, failed e) g h = cc
  granted-held key max_amount (s, panicked) g h = cc

  -- After a reservation of concurrency is granted, in any state reached and under a new lease id, all
  -- live leases of its key together hold at most the trigger's limit (which is below 2^32 - 1).
  pub reserve-held :
      (now : ℕ) (id : String) (req : QuotaRequest) (rule : RateLimit) (trigger : LimitTrigger)
      (amount max_amount : ℕ) (s : LocalQuotaState)
      → Reached s
      → lookup id s.leases ≡ none
      → trigger.resource ≡ trigger_concurrency
      → trigger.concurrency_amount ≡ some max_amount
      → max_amount < u32_max
      → (reserve digest checked_add now id req rule trigger amount s).1 ≡ value reserved_lease
      → held
          (concurrency_counter_key digest req rule trigger)
          (reserve digest checked_add now id req rule trigger amount s).0
        ≤ max_amount
  unfolding reserve concurrency_counter_key
  reserve-held now id req rule trigger amount max_amount s r fresh c m small h =
      elim (Option-cases (checked_add now req.lease_ttl)) [
        | inl bad ↦ cc (rw bad at h)
        | inr (expires, good) ↦
            let key = concurrency_counter_key digest req rule trigger in
            let s' = cleanup_expired_local_leases now s in
            rw (good, c, m)
              (granted-held key max_amount
                (reserve_concurrency id key amount expires (some max_amount) s')
                (reserve_concurrency-IsGranted id key amount expires max_amount s'
                  (cleanup-Balanced now s (Reached-Balanced s r)) (cleanup-absent now id s fresh)
                  small)
                (rw (good, c, m) at h))
      ]
