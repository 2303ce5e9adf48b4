-- ===== src/CircuitBreaker/Handler.antt =====
-- What the calls of `InvokeHandler` report to the breaker (src/traffic/circuitbreaker/api.rs).
use mathlib.Core.Logic.{ite}
use pole_client_rust.Common.{
  ℕ, String, ◌≡◌, refl, ap, Bool, true, false, not, if◌then◌else◌, Option, none, some, List, [],
  ◌∷◌, map, All, AllValues, AllSome, lookup, lookup-AllSome, insert-AllValues, arith, str_eq,
  Bool-cases, inl, inr, add_u32,
}
use pole_client_rust.Core.Error.{Result, ok, err, Result-cases}
use pole_client_rust.CircuitBreaker.Rule.{
  CircuitBreakerRule, TriggerCondition, rules_discrete, trigger_conditions,
}
use pole_client_rust.CircuitBreaker.State.{
  Status, close, half_open, opened, destroy, RetStatus, RuleState, new_state, refresh_status,
  refresh_by_status, report_by_status, report_status, is_error_status, ret_success, ret_unknown,
  any_trigger, should_open_at, should_open, open_if_due,
}
use pole_client_rust.CircuitBreaker.Resource.{Resource, resource_key}
use pole_client_rust.CircuitBreaker.Breaker.{
  Breaker, new_breaker, update_rules, closed_status, check_loop, check_found, check_resource,
  states_for_resource, report_stat, BreakerStatus, is_opened, note_half_open,
}
use pole_client_rust.CircuitBreaker.Flow.{
  Fetch, RequestContext, flow_check, flow_report, flow_update_rules, refresh_invoke_service_rules,
  acquire_permission, common_report, report_both, context_service, context_method, on_success,
  on_error,
}

-- A state that no failure has reached.
abbrev IsUnharmed : RuleState → Type 0
IsUnharmed s = (s.status ≡ close) × (s.consecutive_errors ≡ 0)

any_trigger-zero : (reports : ℕ) (ts : List TriggerCondition) → any_trigger reports 0 ts ≡ false
unfolding any_trigger
any_trigger-zero reports [] = refl
any_trigger-zero reports (t ∷ ts) = ground (arith, any_trigger-zero reports ts)

should_open_at-zero : (r : CircuitBreakerRule) (reports : ℕ) → should_open_at r reports 0 ≡ false
unfolding should_open_at
should_open_at-zero r reports =
    ground (arith, any_trigger-zero reports (trigger_conditions r.block_configs))

refresh-close :
    (st : Status) (now : ℕ) (s : RuleState) → st ≡ close → refresh_by_status st now s ≡ s
unfolding refresh_by_status
refresh-close close now s e = refl
refresh-close half_open now s e = cc
refresh-close opened now s e = cc
refresh-close destroy now s e = cc

report-close :
    (st : Status) (now : ℕ) (ret : RetStatus) (s : RuleState)
    → st ≡ close
    → is_error_status ret ≡ false
    → s.status ≡ close
    → IsUnharmed (report_by_status st now ret s)
unfolding report_by_status
report-close close now ret s e h c = rw h (
    unfold open_if_due should_open in
    rw (should_open_at-zero s.rule (add_u32 s.request_count 1)) (c, refl))
report-close half_open now ret s e h c = cc
report-close opened now ret s e h c = cc
report-close destroy now ret s e h c = cc

report_status-IsUnharmed :
    (now : ℕ) (ret : RetStatus) (s : RuleState)
    → is_error_status ret ≡ false
    → IsUnharmed s
    → IsUnharmed (report_status now ret s)
unfolding report_status refresh_status
report_status-IsUnharmed now ret s h u =
    rw (refresh-close s.status now s u.0) (report-close s.status now ret s u.0 h u.0)

map-IsUnharmed :
    (now : ℕ) (ret : RetStatus) (ss : List RuleState)
    → is_error_status ret ≡ false
    → All IsUnharmed ss
    → All IsUnharmed (map (report_status now ret) ss)
map-IsUnharmed now ret [] h u = tt
map-IsUnharmed now ret (s ∷ ss) h u =
    (report_status-IsUnharmed now ret s h u.0, map-IsUnharmed now ret ss h u.1)

new-IsUnharmed : (rules : List CircuitBreakerRule) → All IsUnharmed (map new_state rules)
unfolding new_state
new-IsUnharmed [] = tt
new-IsUnharmed (r ∷ rules) = ((refl, refl), new-IsUnharmed rules)

states_for_resource-IsUnharmed :
    (o : Option (List RuleState)) (rules : List CircuitBreakerRule)
    → AllSome (All IsUnharmed) o
    → All IsUnharmed (states_for_resource o rules)
unfolding states_for_resource
states_for_resource-IsUnharmed none rules u = new-IsUnharmed rules
states_for_resource-IsUnharmed (some ss) rules u = u

abbrev Quiet : Option Breaker → Type 0
Quiet none = Unit {0}
Quiet (some b) = AllValues (All IsUnharmed) b.states

flow_report-Quiet :
    (now : ℕ) (r : Resource) (ret : RetStatus) (b : Option Breaker)
    → is_error_status ret ≡ false
    → Quiet b
    → Quiet (flow_report now r ret b)
unfolding flow_report report_stat
flow_report-Quiet now r ret none h q = tt
flow_report-Quiet now r ret (some b) h q =
    insert-AllValues (All IsUnharmed) _ _ b.states
      (map-IsUnharmed now ret _ h
        (states_for_resource-IsUnharmed _ _ (lookup-AllSome (All IsUnharmed) _ b.states q)))
      q

flow_update_rules-Quiet :
    (rules : List CircuitBreakerRule) (b : Option Breaker)
    → Quiet b
    → Quiet (flow_update_rules rules b)
unfolding flow_update_rules update_rules
flow_update_rules-Quiet rules none q = tt
flow_update_rules-Quiet rules (some b) q = kept (rules_discrete b.rules rules)
  where
    kept :
        (d : Dec (b.rules ≡ rules)) → Quiet (some (ite d b (record { rules = rules; states = [] })))
    kept (yes same) = q
    kept (no changed) = tt

refresh-Quiet :
    (fetch : Option Fetch) (c : RequestContext) (b : Option Breaker)
    → Quiet b
    → Quiet (refresh_invoke_service_rules fetch c b).0
unfolding refresh_invoke_service_rules
refresh-Quiet none c b q = q
refresh-Quiet (some fetch) c b q = elim (Result-cases (fetch c.callee_service)) [
  | inl (rules, e) ↦ rw e (flow_update_rules-Quiet rules b q)
  | inr (code, e) ↦ rw e q
]

check_loop-IsUnharmed :
    (now : ℕ) (ss : List RuleState)
    → All IsUnharmed ss
    → check_loop now none ss ≡ (ss, closed_status)
unfolding check_loop refresh_status
check_loop-IsUnharmed now [] u = refl
check_loop-IsUnharmed now (s ∷ ss) u =
    let shut : is_opened s.status ≡ false = ap is_opened u.0.0 in
    let unnoted : note_half_open s.status s.rule.name none ≡ none =
      ap (λ st. note_half_open st s.rule.name none) u.0.0 in
    rw (refresh-close s.status now s u.0.0, shut, unnoted, check_loop-IsUnharmed now ss u.1)

check_found-Quiet :
    (now : ℕ) (key : String) (o : Option (List RuleState)) (b : Breaker)
    → AllSome (All IsUnharmed) o
    → AllValues (All IsUnharmed) b.states
    → AllValues (All IsUnharmed) (check_found now key o b).0.states
      × ((check_found now key o b).1 ≡ closed_status)
unfolding check_found
check_found-Quiet now key none b u q = (q, refl)
check_found-Quiet now key (some ss) b u q =
    rw (check_loop-IsUnharmed now ss u)
      (insert-AllValues (All IsUnharmed) key ss b.states u q, refl)

flow_check-Quiet :
    (now : ℕ) (r : Resource) (b : Option Breaker)
    → Quiet b
    → Quiet (flow_check now r b).0 × ((flow_check now r b).1.pass ≡ true)
unfolding flow_check check_resource
flow_check-Quiet now r none q = (tt, refl)
flow_check-Quiet now r (some b) q =
    let found = lookup (resource_key r) b.states in
    let checked =
      check_found-Quiet now (resource_key r) found b
        (lookup-AllSome (All IsUnharmed) (resource_key r) b.states q) q in
    (checked.0, ap (λ (s : BreakerStatus). not (is_opened s.status)) checked.1)

acquire-Quiet :
    (fetch : Option Fetch) (now : ℕ) (c : RequestContext) (b : Option Breaker)
    → Quiet b
    → Quiet (acquire_permission fetch now c b).0 × ((acquire_permission fetch now c b).1 ≡ none)
unfolding acquire_permission
acquire-Quiet fetch now c b q =
    let checked = flow_check-Quiet now (context_service c) _ (refresh-Quiet fetch c b q) in
    (checked.0, rw checked.1)

common_report-Quiet :
    (fetch : Option Fetch) (now : ℕ) (ret : RetStatus) (c : RequestContext) (b : Option Breaker)
    → is_error_status ret ≡ false
    → Quiet b
    → Quiet (common_report fetch now ret c b).0
unfolding common_report
common_report-Quiet fetch now ret c b h q =
    reported (refresh_invoke_service_rules fetch c b) (refresh-Quiet fetch c b q)
  where
    reported :
        (refreshed : Option Breaker × Result (Unit {0}))
        → Quiet refreshed.0
        → Quiet (report_both now ret c refreshed).0
    reported (b', err e) q' = q'
    reported (b', ok u) q' =
        let first = flow_report-Quiet now (context_service c) ret b' h q' in
        elim (Bool-cases (str_eq c.path "")) [
          | inl t ↦ rw t first
          | inr f ↦ rw f (flow_report-Quiet now (context_method c) ret _ h first)
        ]

-- One guarded call: the handler is asked, the call is made at `now`, and its outcome is told to
-- `on_error` (if `failed`) or to `on_success`.
pub record Call : Type 0 where
  pub fetch : Option Fetch
  pub context : RequestContext
  pub now : ℕ
  pub failed : Bool

unfoldable pub invoke : Call → Option Breaker → Option Breaker
invoke call b =
    let asked = (acquire_permission call.fetch call.now call.context b).0 in
    if call.failed
    then (on_error call.fetch call.now call.context asked).0
    else (on_success call.fetch call.now false call.context asked).0

unfoldable pub invoke_all : List Call → Option Breaker → Option Breaker
invoke_all [] b = b
invoke_all (call ∷ rest) b = invoke_all rest (invoke call b)

invoke-Quiet : (call : Call) (b : Option Breaker) → Quiet b → Quiet (invoke call b)
unfolding invoke on_error on_success is_error_status
invoke-Quiet call b q =
    let asked = (acquire-Quiet call.fetch call.now call.context b q).0 in
    elim (Bool-cases call.failed) [
      | inl t ↦ rw t (common_report-Quiet call.fetch call.now ret_unknown call.context _ refl asked)
      | inr f ↦ rw f (common_report-Quiet call.fetch call.now ret_success call.context _ refl asked)
    ]

invoke_all-Quiet : (calls : List Call) (b : Option Breaker) → Quiet b → Quiet (invoke_all calls b)
unfolding invoke_all
invoke_all-Quiet [] b q = q
invoke_all-Quiet (call ∷ rest) b q = invoke_all-Quiet rest (invoke call b) (invoke-Quiet call b q)

-- However many calls fail, through whichever handlers and whatever the rules, a breaker that learns
-- of them only by `on_error` and `on_success` (with no aborted call) never refuses permission:
-- `on_error` reports RetUnknown, which counts as no error.
pub acquire_permission-invoke_all :
    (calls : List Call) (fetch : Option Fetch) (now : ℕ) (c : RequestContext)
    → (acquire_permission fetch now c (invoke_all calls (some new_breaker))).1 ≡ none
unfolding new_breaker
acquire_permission-invoke_all calls fetch now c =
    (acquire-Quiet fetch now c _ (invoke_all-Quiet calls _ tt)).1
