-- ===== src/CircuitBreaker/History.antt =====
-- When a rule's state opens, told from the history of the outcomes alone
-- (src/plugins/circuitbreaker/composite/circuitbreaker.rs).
use pole_client_rust.Common.{
  ℕ, suc, ◌+◌, ◌≤◌, ◌<◌, ◌≡◌, refl, ◌∙◌, ap, Bool, false, none, List, [], ◌∷◌, arith, add_u32,
  u32_mod, length, if◌then◌else◌, ◌&&◌, any, leb, ltb,
}
use pole_client_rust.CircuitBreaker.Rule.{
  CircuitBreakerRule, TriggerCondition, is_consecutive_error, trigger_conditions,
}
use pole_client_rust.CircuitBreaker.State.{
  close, RetStatus, RuleState, new_state, to_open, refresh_status, report_by_status, report_status,
  open_if_due, should_open, should_open_at, any_trigger, is_error_status,
}
use pole_client_rust.CircuitBreaker.Transitions.{Event}

-- A history has the newest outcome first. The reports that it stands for, made from the oldest on.
unfoldable pub after : CircuitBreakerRule → List Event → RuleState
after r [] = new_state r
after r ((now, ret) ∷ older) = report_status now ret (after r older)

-- How many outcomes in a row, counted back from the newest, are errors.
unfoldable pub trailing_errors : List Event → ℕ
trailing_errors [] = 0
trailing_errors ((now, ret) ∷ older) =
    if is_error_status ret then suc (trailing_errors older) else 0

-- What a trigger condition asks for: enough reports, and a row of errors of the configured length.
abbrev pub asks_for : ℕ → ℕ → TriggerCondition → Bool
asks_for reports errors t =
    is_consecutive_error t.trigger_type
    && leb t.minimum_request reports
    && ltb 0 t.error_count
    && leb t.error_count errors

-- The rule is enabled, and some trigger condition of some policy of it holds on the history.
abbrev pub fires : CircuitBreakerRule → List Event → Bool
fires r history =
    r.enable
    && any (asks_for (length history) (trailing_errors history))
        (trigger_conditions r.block_configs)

any_trigger-any :
    (reports errors : ℕ) (ts : List TriggerCondition)
    → any_trigger reports errors ts ≡ any (asks_for reports errors) ts
unfolding any_trigger
any_trigger-any reports errors [] = refl
any_trigger-any reports errors (t ∷ ts) = ground (arith, any_trigger-any reports errors ts)

should_open_at-fires :
    (r : CircuitBreakerRule) (history : List Event)
    → should_open_at r (length history) (trailing_errors history) ≡ fires r history
unfolding should_open_at
should_open_at-fires r history = ground (
  arith,
  any_trigger-any (length history) (trailing_errors history) (trigger_conditions r.block_configs),
)

-- They held at no earlier point of it.
abbrev pub NeverFired : CircuitBreakerRule → List Event → Type 0
NeverFired r [] = Unit {0}
NeverFired r (e ∷ older) = (fires r (e ∷ older) ≡ false) × NeverFired r older

-- The Close state that has seen the history.
abbrev pub watching : CircuitBreakerRule → List Event → RuleState
watching r history = record {
  rule = r;
  status = close;
  opened_at = none;
  consecutive_errors = trailing_errors history;
  consecutive_successes = 0;
  request_count = length history;
}

trailing_errors-le-length : (h : List Event) → trailing_errors h ≤ length h
unfolding trailing_errors
trailing_errors-le-length [] = omega arith
trailing_errors-le-length ((now, ret) ∷ older) = ground (arith, trailing_errors-le-length older)

-- One more report on a Close state that has seen `older`.
report-watching :
    (r : CircuitBreakerRule) (now : ℕ) (ret : RetStatus) (older : List Event)
    → length older + 1 < u32_mod
    → report_status now ret (watching r older) ≡ (
        if fires r ((now, ret) ∷ older)
        then to_open now (watching r ((now, ret) ∷ older))
        else watching r ((now, ret) ∷ older))
unfolding report_status refresh_status report_by_status trailing_errors open_if_due
report-watching r now ret older b =
    let requests : add_u32 (length older) 1 ≡ suc (length older) = omega arith in
    let errors : add_u32 (trailing_errors older) 1 ≡ suc (trailing_errors older) =
      omega (arith, trailing_errors-le-length older) in
    let due = should_open_at-fires r ((now, ret) ∷ older) in
    rw (requests, errors) (unfold should_open in rw due)

NeverFired-after :
    (r : CircuitBreakerRule) (history : List Event)
    → length history < u32_mod
    → NeverFired r history
    → after r history ≡ watching r history
unfolding after new_state trailing_errors
NeverFired-after r [] b n = refl
NeverFired-after r ((now, ret) ∷ older) b n =
    ap (report_status now ret) (NeverFired-after r older (omega arith) n.1)
    ∙ report-watching r now ret older (omega arith)
    ∙ rw n.0

-- As long as fewer than 2^32 reports were made and the rule's conditions held at no earlier point,
-- the state is Open right after a report exactly when the conditions hold on the whole history, by
-- its length and the number of errors at its end; then the time of that report is the opening time.
-- Otherwise it is Close. In both cases its two counters are these two numbers.
pub opens_exactly :
    (r : CircuitBreakerRule) (now : ℕ) (ret : RetStatus) (older : List Event)
    → length older + 1 < u32_mod
    → NeverFired r older
    → after r ((now, ret) ∷ older) ≡ (
        if fires r ((now, ret) ∷ older)
        then to_open now (watching r ((now, ret) ∷ older))
        else watching r ((now, ret) ∷ older))
unfolding after
opens_exactly r now ret older b n =
    ap (report_status now ret) (NeverFired-after r older (omega arith) n)
    ∙ report-watching r now ret older b
