-- ===== src/CircuitBreaker/Breaker.antt =====
-- `CompositeCircuitBreaker`: the rules in force and the states of each resource
-- (src/plugins/circuitbreaker/composite/circuitbreaker.rs). The two mutexes make each operation
-- one step.
use mathlib.Core.Logic.{ite}
use pole_client_rust.Common.{
  ℕ, String, Bool, true, false, if◌then◌else◌, Option, none, some, List, [], ◌∷◌, map, Table,
  lookup, insert,
}
use pole_client_rust.CircuitBreaker.Rule.{CircuitBreakerRule, rules_discrete}
use pole_client_rust.CircuitBreaker.State.{
  Status, close, half_open, opened, destroy, RetStatus, RuleState, new_state, refresh_status,
  report_status,
}
use pole_client_rust.CircuitBreaker.Resource.{Resource, resource_key, applicable_rules}

pub record Breaker : Type 0 where
  pub rules : List CircuitBreakerRule
  pub states : Table (List RuleState)

unfoldable pub new_breaker : Breaker
new_breaker = record { rules = []; states = [] }

-- `update_rules_inner`
unfoldable pub update_rules : List CircuitBreakerRule → Breaker → Breaker
update_rules rules b = ite (rules_discrete b.rules rules) b (record { rules = rules; states = [] })

-- `CircuitBreakerStatus`; the fields that are the same on every path (start_ms, fallback_info,
-- destroy) are left out.
pub record BreakerStatus : Type 0 where
  pub status : Status
  pub circuit_breaker : String

abbrev pub closed_status : BreakerStatus
closed_status = record { status = close; circuit_breaker = "" }

-- The value after the loop of `check_resource`.
abbrev pub after_loop : Option String → BreakerStatus
after_loop (some name) = record { status = half_open; circuit_breaker = name }
after_loop none = closed_status

-- `if status == HalfOpen && half_open_state.is_none()`
abbrev pub note_half_open : Status → String → Option String → Option String
note_half_open half_open name none = some name
note_half_open half_open name (some n) = some n
note_half_open close name found = found
note_half_open opened name found = found
note_half_open destroy name found = found

abbrev pub is_opened : Status → Bool
is_opened opened = true
is_opened close = false
is_opened half_open = false
is_opened destroy = false

-- The loop of `check_resource` with the name that it has noted so far: the first open state ends it,
-- and the states behind that one are not refreshed.
unfoldable pub check_loop : ℕ → Option String → List RuleState → List RuleState × BreakerStatus
check_loop now found [] = ([], after_loop found)
check_loop now found (s ∷ rest) =
    let s' = refresh_status now s in
    let later = check_loop now (note_half_open s'.status s'.rule.name found) rest in
    if is_opened s'.status
    then (s' ∷ rest, record { status = opened; circuit_breaker = s'.rule.name })
    else (s' ∷ later.0, later.1)

unfoldable pub check_found :
    ℕ → String → Option (List RuleState) → Breaker → Breaker × BreakerStatus
unfolding check_loop
check_found now key none b = (b, closed_status)
check_found now key (some ss) b =
    let r = check_loop now none ss in (record b { states = insert key r.0 b.states }, r.1)

unfoldable pub check_resource : ℕ → Resource → Breaker → Breaker × BreakerStatus
unfolding check_found
check_resource now r b = check_found now (resource_key r) (lookup (resource_key r) b.states) b

-- `states.entry(key).or_insert_with(…)`
unfoldable pub states_for_resource :
    Option (List RuleState) → List CircuitBreakerRule → List RuleState
states_for_resource (some ss) rules = ss
states_for_resource none rules = map new_state rules

unfoldable pub report_stat : ℕ → Resource → RetStatus → Breaker → Breaker
unfolding states_for_resource
report_stat now r ret b =
    let key = resource_key r in
    let ss = states_for_resource (lookup key b.states) (applicable_rules r b.rules) in
    record b { states = insert key (map (report_status now ret) ss) b.states }
