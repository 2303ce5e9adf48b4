-- ===== src/RateLimit/Local.antt =====
-- `LocalQuotaCounter` (src/traffic/ratelimit/default.rs): windows of consumable quota and occupied
-- concurrency, held by leases that expire. The counter's lock makes a call one step, which reads the
-- clock once. `digest` is SHA-256 in hexadecimal, `checked_add` that of `Instant`; the random id of a
-- new lease is an argument.
pub mod Counter
pub mod Balance
pub mod Steps
pub mod Granted
pub mod Reach
pub mod Tests
use pole_client_rust.Common.{
  ℕ, zero, ◌+◌, ◌-◌, ◌*◌, ◌%◌, String, Bool, true, false, not, if◌then◌else◌, ◌==◌, ltb, leb, ◌&&◌,
  ◌||◌, Option, none, some, List, [], ◌∷◌, keep, map, is_empty, Table, lookup, insert, remove,
  add_u32, saturating_add_u32, saturating_add_u64, u64_mod,
}
use pole_client_rust.Core.Error.{
  ErrorCode, Result, ok, err, api_invalid_argument, invalid_state, guard, ◌>>=◌, ◌>>◌,
}
use pole_client_rust.RateLimit.Req.{QuotaResource, QuotaRequest, second}
use pole_client_rust.RateLimit.Rule.{
  Amount, LimitTrigger, RateLimit, trigger_qps, trigger_token, trigger_concurrency, trigger_other,
  amount_duration, initial_consumed_total, quota_counter_key, concurrency_counter_key,
}

pub record QuotaWindow : Type 0 where
  pub started_at : ℕ
  pub generation : ℕ
  pub committed : ℕ
  pub reserved : ℕ

pub data LocalAccounting : Type 0 where
  consumable occupancy : LocalAccounting

pub record LocalWindowReservation : Type 0 where
  pub key : String
  pub generation : ℕ

pub record LocalLeaseState : Type 0 where
  pub accounting : LocalAccounting
  pub reserved_amount : ℕ
  pub consumed_total : ℕ
  pub sequence : ℕ
  pub expires_at : ℕ
  pub windows : List LocalWindowReservation
  pub concurrency_key : Option String

pub record CompletedLocalLease : Type 0 where
  pub consumed_total : ℕ
  pub sequence : ℕ
  pub expires_at : ℕ

pub record LocalQuotaState : Type 0 where
  pub windows : Table QuotaWindow
  pub concurrency : Table ℕ
  pub leases : Table LocalLeaseState
  pub completed : Table CompletedLocalLease

unfoldable pub empty_state : LocalQuotaState
empty_state = record { windows = []; concurrency = []; leases = []; completed = [] }

pub data LocalReserveResult : Type 0 where
  reserved_lease rejected not_configured : LocalReserveResult

-- One reservation of a settled lease; a window that is gone, or of a later generation, is left alone.
unfoldable pub settle_window :
    LocalLeaseState → LocalWindowReservation → Table QuotaWindow → Table QuotaWindow
settle_window l r ws = elim (lookup r.key ws) [
  | none ↦ ws
  | some w ↦
      if not (w.generation == r.generation)
      then ws
      else insert r.key
          (record w {
            reserved = w.reserved - l.reserved_amount;
            committed = saturating_add_u32 w.committed l.consumed_total;
          })
          ws
]

unfoldable pub settle_windows :
    LocalLeaseState → List LocalWindowReservation → Table QuotaWindow → Table QuotaWindow
unfolding settle_window
settle_windows l [] ws = ws
settle_windows l (r ∷ rest) ws = settle_windows l rest (settle_window l r ws)

abbrev released : String → ℕ → Table ℕ → Table ℕ
released key left table = if left == 0 then remove key table else insert key left table

unfoldable pub settle_concurrency : Option String → ℕ → Table ℕ → Table ℕ
settle_concurrency none amount table = table
settle_concurrency (some key) amount table = elim (lookup key table) [
  | none ↦ table
  | some occupied ↦ released key (occupied - amount) table
]

unfoldable pub settle_local_lease : LocalQuotaState → LocalLeaseState → LocalQuotaState
unfolding settle_windows settle_concurrency
settle_local_lease s l = elim l.accounting [
  | consumable ↦ record s { windows = settle_windows l l.windows s.windows }
  | occupancy ↦ record s {
    concurrency = settle_concurrency l.concurrency_key l.reserved_amount s.concurrency;
  }
]

abbrev pub settle_removed : String → LocalQuotaState → Option LocalLeaseState → LocalQuotaState
settle_removed id s none = s
settle_removed id s (some l) = settle_local_lease (record s { leases = remove id s.leases }) l

unfoldable pub settle_all : List String → LocalQuotaState → LocalQuotaState
unfolding settle_local_lease
settle_all [] s = s
settle_all (id ∷ rest) s = settle_all rest (settle_removed id s (lookup id s.leases))

unfoldable pub cleanup_expired_local_leases : ℕ → LocalQuotaState → LocalQuotaState
unfolding settle_all
cleanup_expired_local_leases now s =
    let expired = map (λ e. e.0) (keep (λ e. leb e.1.expires_at now) s.leases) in
    let settled = settle_all expired s in
    record settled { completed = keep (λ e. ltb now e.1.expires_at) settled.completed }

unfoldable pub validate_local_operation : LocalLeaseState → ℕ → ℕ → Result (Unit {0})
validate_local_operation l total sequence = do
  guard (sequence == saturating_add_u64 l.sequence 1) invalid_state
  guard (not (ltb total l.consumed_total || ltb l.reserved_amount total)) api_invalid_argument
  ok tt

-- The window of a key as a request finds it: new, or emptied when its duration has passed.
unfoldable pub current_window : ℕ → ℕ → Option QuotaWindow → QuotaWindow
current_window now duration none = record {
  started_at = now;
  generation = 0;
  committed = 0;
  reserved = 0;
}
current_window now duration (some w) =
    if leb (duration * second) (now - w.started_at)
    then record {
      started_at = now;
      generation = (w.generation + 1) % u64_mod;
      committed = 0;
      reserved = 0;
    }
    else w

abbrev pub Checked : Type 0
Checked = Table QuotaWindow × Option (List LocalWindowReservation)

abbrev push_reservation : LocalWindowReservation → Checked → Checked
push_reservation r (ws, none) = (ws, none)
push_reservation r (ws, some rs) = (ws, some (r ∷ rs))

-- The loop over the amounts; none when a window has no room. Windows made on the way stay.
unfoldable pub check_windows : ℕ → (ℕ → String) → ℕ → List Amount → Table QuotaWindow → Checked
unfolding current_window
check_windows now key_of amount [] ws = (ws, some [])
check_windows now key_of amount (a ∷ rest) ws =
    let key = key_of (amount_duration a) in
    let w = current_window now (amount_duration a) (lookup key ws) in
    let ws' = insert key w ws in
    let later = check_windows now key_of amount rest ws' in
    if ltb a.max_amount (saturating_add_u32 (saturating_add_u32 w.committed w.reserved) amount)
    then (ws', none)
    else push_reservation (record { key = key; generation = w.generation }) later

-- The second loop; none when a window is missing (`expect`).
unfoldable pub add_reserved :
    ℕ → List LocalWindowReservation → Table QuotaWindow → Option (Table QuotaWindow)
add_reserved amount [] ws = some ws
add_reserved amount (r ∷ rest) ws = elim (lookup r.key ws) [
  | none ↦ none
  | some w ↦
      add_reserved amount rest (insert r.key (record w { reserved = add_u32 w.reserved amount }) ws)
]
