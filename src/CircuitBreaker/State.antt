-- ===== src/CircuitBreaker/State.antt =====
-- `CircuitBreakerRuleState`: the state machine of one rule for one resource. Each operation takes the
-- reading of the clock as `now`, in nanoseconds.
use pole_client_rust.Common.{
  ℕ, ◌-◌, ◌*◌, max, Bool, true, false, not, if◌then◌else◌, ltb, leb, Option, none, some, List, [],
  ◌∷◌, add_u32,
}
use pole_client_rust.CircuitBreaker.Rule.{
  CircuitBreakerRule, TriggerCondition, RecoverCondition, recover_condition, trigger_conditions,
  is_consecutive_error,
}

-- src/core/model/circuitbreaker.rs
pub data Status : Type 0 where
  close half_open opened destroy : Status

pub data RetStatus : Type 0 where
  ret_unknown ret_success ret_fail ret_timeout ret_reject ret_flow_control : RetStatus

unfoldable pub is_error_status : RetStatus → Bool
is_error_status ret_fail = true
is_error_status ret_timeout = true
is_error_status ret_reject = true
is_error_status ret_unknown = false
is_error_status ret_success = false
is_error_status ret_flow_control = false

pub record RuleState : Type 0 where
  pub rule : CircuitBreakerRule
  pub status : Status
  pub opened_at : Option ℕ
  pub consecutive_errors : ℕ
  pub consecutive_successes : ℕ
  pub request_count : ℕ

unfoldable pub new_state : CircuitBreakerRule → RuleState
new_state r = record {
  rule = r;
  status = close;
  opened_at = none;
  consecutive_errors = 0;
  consecutive_successes = 0;
  request_count = 0;
}

unfoldable pub to_open : ℕ → RuleState → RuleState
to_open now s = record s { status = opened; opened_at = some now; consecutive_successes = 0 }

unfoldable pub to_close : RuleState → RuleState
to_close s = record s {
  status = close;
  opened_at = none;
  consecutive_errors = 0;
  consecutive_successes = 0;
  request_count = 0;
}

abbrev pub nanos : ℕ → ℕ
nanos secs = secs * 1_000_000_000

unfoldable pub success_threshold : Option RecoverCondition → ℕ
success_threshold none = 1
success_threshold (some c) = max c.consecutive_success 1

-- `recover_success_threshold`
unfoldable pub recover_success_threshold : RuleState → ℕ
unfolding success_threshold
recover_success_threshold s = success_threshold (recover_condition s.rule.block_configs)

-- The last lines of `refresh_status`, with the two values that it looks up.
unfoldable pub refresh_open : ℕ → Option RecoverCondition → Option ℕ → RuleState → RuleState
refresh_open now none since s = s
refresh_open now (some c) none s = s
refresh_open now (some c) (some since) s =
    if leb (nanos c.sleep_window) (now - since)
    then record s { status = half_open; consecutive_successes = 0 }
    else s

unfoldable pub refresh_by_status : Status → ℕ → RuleState → RuleState
unfolding refresh_open
refresh_by_status opened now s =
    refresh_open now (recover_condition s.rule.block_configs) s.opened_at s
refresh_by_status close now s = s
refresh_by_status half_open now s = s
refresh_by_status destroy now s = s

unfoldable pub refresh_status : ℕ → RuleState → RuleState
unfolding refresh_by_status
refresh_status now s = refresh_by_status s.status now s

-- The loop of `should_open` over the trigger conditions, with its two `continue`s.
unfoldable pub any_trigger : ℕ → ℕ → List TriggerCondition → Bool
any_trigger requests errors [] = false
any_trigger requests errors (t ∷ rest) =
    let later = any_trigger requests errors rest in
    if not (is_consecutive_error t.trigger_type)
    then later
    else if ltb requests t.minimum_request
    then later
    else if ltb 0 t.error_count
    then (if leb t.error_count errors then true else later)
    else later

unfoldable pub should_open_at : CircuitBreakerRule → ℕ → ℕ → Bool
unfolding any_trigger
should_open_at r requests errors =
    if not r.enable then false else any_trigger requests errors (trigger_conditions r.block_configs)

unfoldable pub should_open : RuleState → Bool
unfolding should_open_at
should_open s = should_open_at s.rule s.request_count s.consecutive_errors

unfoldable pub open_if_due : ℕ → RuleState → RuleState
unfolding should_open to_open
open_if_due now s = if should_open s then to_open now s else s

-- `report_status` after its refresh, by the status that the refresh left.
unfoldable pub report_by_status : Status → ℕ → RetStatus → RuleState → RuleState
unfolding is_error_status to_open to_close recover_success_threshold open_if_due
report_by_status opened now ret s = s
report_by_status half_open now ret s =
    if is_error_status ret
    then to_open now s
    else (let counted = record s { consecutive_successes = add_u32 s.consecutive_successes 1 } in
        if leb (recover_success_threshold counted) counted.consecutive_successes
        then to_close counted
        else counted)
report_by_status close now ret s =
    let counted = record s { request_count = add_u32 s.request_count 1 } in
    open_if_due now (record counted {
      consecutive_errors = if is_error_status ret then add_u32 counted.consecutive_errors 1 else 0;
    })
report_by_status destroy now ret s =
    let counted = record s { request_count = add_u32 s.request_count 1 } in
    open_if_due now (record counted {
      consecutive_errors = if is_error_status ret then add_u32 counted.consecutive_errors 1 else 0;
    })

unfoldable pub report_status : ℕ → RetStatus → RuleState → RuleState
unfolding refresh_status report_by_status
report_status now ret s = let s' = refresh_status now s in report_by_status s'.status now ret s'
