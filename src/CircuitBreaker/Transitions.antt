-- ===== src/CircuitBreaker/Transitions.antt =====
-- The life of one rule's state over a sequence of reports
-- (src/plugins/circuitbreaker/composite/circuitbreaker.rs).
use pole_client_rust.Common.{
  ℕ, ◌-◌, ◌<◌, ◌≡◌, refl, sym, subst, ◌∙◌, ◌≢◌, false, Option, none, some, List, [], ◌∷◌, arith,
  leb, add_u32, All, Bool-cases, inl, inr, if◌then◌else◌, ap,
}
use pole_client_rust.CircuitBreaker.Rule.{CircuitBreakerRule, RecoverCondition, recover_condition}
use pole_client_rust.CircuitBreaker.State.{
  Status, close, half_open, opened, destroy, RetStatus, RuleState, new_state, nanos, to_open,
  to_close, success_threshold, recover_success_threshold, refresh_open, refresh_by_status,
  refresh_status, report_by_status, report_status, open_if_due, should_open, is_error_status,
}

-- A report: the reading of the clock, and the outcome of the call.
abbrev pub Event : Type 0
Event = ℕ × RetStatus

-- The reports of a list, the first one first.
unfoldable pub run : List Event → RuleState → RuleState
run [] s = s
run ((now, ret) ∷ rest) s = run rest (report_status now ret s)

-- What holds of a state, by its status.
abbrev pub IsValidAt : Status → RuleState → Type 0
IsValidAt close s = (s.opened_at ≡ none) × (s.consecutive_successes ≡ 0)
IsValidAt opened s = (s.opened_at ≢ none) × (s.consecutive_successes ≡ 0)
IsValidAt half_open s =
    (s.opened_at ≢ none) × (s.consecutive_successes < recover_success_threshold s)
IsValidAt destroy s = ⊥

abbrev pub IsValid : RuleState → Type 0
IsValid s = IsValidAt s.status s

at_status : (st : Status) (s : RuleState) → s.status ≡ st → IsValidAt st s → IsValid s
at_status st s e v = subst (λ x. IsValidAt x s) (sym e) v

success_threshold-pos : (c : Option RecoverCondition) → 0 < success_threshold c
unfolding success_threshold
success_threshold-pos none = omega arith
success_threshold-pos (some c) = omega arith

threshold-pos : (s : RuleState) → 0 < recover_success_threshold s
unfolding recover_success_threshold
threshold-pos s = success_threshold-pos (recover_condition s.rule.block_configs)

refresh_open-IsValid :
    (now : ℕ) (c : Option RecoverCondition) (since : Option ℕ) (s : RuleState)
    → s.status ≡ opened
    → s.opened_at ≡ since
    → IsValidAt opened s
    → IsValid (refresh_open now c since s)
unfolding refresh_open recover_success_threshold
refresh_open-IsValid now none since s e o v = rw e v
refresh_open-IsValid now (some c) none s e o v = rw e v
refresh_open-IsValid now (some c) (some since) s e o v =
    elim (Bool-cases (leb (nanos c.sleep_window) (now - since))) [
      | inl t ↦ rw t (v.0, success_threshold-pos (recover_condition s.rule.block_configs))
      | inr f ↦ rw f (at_status opened s e v)
    ]

refresh_by_status-IsValid :
    (st : Status) (now : ℕ) (s : RuleState)
    → s.status ≡ st
    → IsValidAt st s
    → IsValid (refresh_by_status st now s)
unfolding refresh_by_status
refresh_by_status-IsValid close now s e v = at_status close s e v
refresh_by_status-IsValid half_open now s e v = at_status half_open s e v
refresh_by_status-IsValid destroy now s e v = absurd v
refresh_by_status-IsValid opened now s e v =
    refresh_open-IsValid now (recover_condition s.rule.block_configs) s.opened_at s e refl v

pub refresh_status-IsValid : (now : ℕ) (s : RuleState) → IsValid s → IsValid (refresh_status now s)
unfolding refresh_status
refresh_status-IsValid now s v = refresh_by_status-IsValid s.status now s refl v

to_open-IsValid : (now : ℕ) (s : RuleState) → IsValid (to_open now s)
unfolding to_open
to_open-IsValid now s = ((λ e. cc), refl)

to_close-IsValid : (s : RuleState) → IsValid (to_close s)
unfolding to_close
to_close-IsValid s = (refl, refl)

open_if_due-IsValid :
    (now : ℕ) (s : RuleState) → s.status ≡ close → IsValidAt close s → IsValid (open_if_due now s)
unfolding open_if_due
open_if_due-IsValid now s e v = elim (Bool-cases (should_open s)) [
  | inl t ↦ rw t (to_open-IsValid now s)
  | inr f ↦ rw f (at_status close s e v)
]

half_open_success-IsValid :
    (s : RuleState) (n : ℕ)
    → s.status ≡ half_open
    → IsValidAt half_open s
    → IsValid (
        if leb (recover_success_threshold (record s { consecutive_successes = n })) n
        then to_close (record s { consecutive_successes = n })
        else record s { consecutive_successes = n })
half_open_success-IsValid s n e v = elim (Bool-cases (leb (recover_success_threshold counted) n)) [
  | inl t ↦ rw t (to_close-IsValid counted)
  | inr f ↦ rw f (at_status half_open counted e (v.0, ground arith))
]
  where
    counted : RuleState
    counted = record s { consecutive_successes = n }

report_by_status-IsValid :
    (st : Status) (now : ℕ) (ret : RetStatus) (s : RuleState)
    → s.status ≡ st
    → IsValidAt st s
    → IsValid (report_by_status st now ret s)
unfolding report_by_status
report_by_status-IsValid opened now ret s e v = at_status opened s e v
report_by_status-IsValid destroy now ret s e v = absurd v
report_by_status-IsValid close now ret s e v = open_if_due-IsValid now _ e v
report_by_status-IsValid half_open now ret s e v = elim (Bool-cases (is_error_status ret)) [
  | inl t ↦ rw t (to_open-IsValid now s)
  | inr f ↦ rw f (half_open_success-IsValid s (add_u32 s.consecutive_successes 1) e v)
]

pub report_status-IsValid :
    (now : ℕ) (ret : RetStatus) (s : RuleState) → IsValid s → IsValid (report_status now ret s)
unfolding report_status
report_status-IsValid now ret s v =
    report_by_status-IsValid (refresh_status now s).status now ret (refresh_status now s) refl
      (refresh_status-IsValid now s v)

run-IsValid : (events : List Event) (s : RuleState) → IsValid s → IsValid (run events s)
unfolding run
run-IsValid [] s v = v
run-IsValid ((now, ret) ∷ rest) s v =
    run-IsValid rest (report_status now ret s) (report_status-IsValid now ret s v)

-- After any reports, a state that began as `new` is Close with no opening time and no successes
-- counted, Open with an opening time and no successes counted, or HalfOpen with an opening time and
-- fewer successes counted than its threshold; it is never Destroy.
pub run-new-IsValid :
    (r : CircuitBreakerRule) (events : List Event) → IsValid (run events (new_state r))
unfolding new_state
run-new-IsValid r events = run-IsValid events _ (refl, refl)

-- No report at `now` may leave an Open state that was opened at `since`.
abbrev pub Waits : Option RecoverCondition → ℕ → Event → Type 0
Waits none since event = Unit {0}
Waits (some c) since event = event.0 - since < nanos c.sleep_window

refresh_open-Waits :
    (c : Option RecoverCondition) (o : Option ℕ) (since : ℕ) (event : Event) (s : RuleState)
    → o ≡ some since
    → Waits c since event
    → refresh_open event.0 c o s ≡ s
unfolding refresh_open
refresh_open-Waits none o since event s e w = refl
refresh_open-Waits (some c) none since event s e w = refl
refresh_open-Waits (some c) (some t) since (now, ret) s e w =
    let same : t ≡ since = cc in
    let early : leb (nanos c.sleep_window) (now - t) ≡ false = rw same (ground arith) in rw early

refresh_by_status-Waits :
    (st : Status) (since : ℕ) (event : Event) (s : RuleState)
    → st ≡ opened
    → s.opened_at ≡ some since
    → Waits (recover_condition s.rule.block_configs) since event
    → refresh_by_status st event.0 s ≡ s
unfolding refresh_by_status
refresh_by_status-Waits opened since event s e o w =
    refresh_open-Waits (recover_condition s.rule.block_configs) s.opened_at since event s o w
refresh_by_status-Waits close since event s e o w = refl
refresh_by_status-Waits half_open since event s e o w = refl
refresh_by_status-Waits destroy since event s e o w = refl

report_by_status-opened :
    (st : Status) (event : Event) (s : RuleState)
    → st ≡ opened
    → report_by_status st event.0 event.1 s ≡ s
unfolding report_by_status
report_by_status-opened opened event s e = refl
report_by_status-opened close event s e = cc
report_by_status-opened half_open event s e = cc
report_by_status-opened destroy event s e = cc

report_status-Waits :
    (since : ℕ) (event : Event) (s : RuleState)
    → s.status ≡ opened
    → s.opened_at ≡ some since
    → Waits (recover_condition s.rule.block_configs) since event
    → report_status event.0 event.1 s ≡ s
unfolding report_status refresh_status
report_status-Waits since event s e o w =
    let same = refresh_by_status-Waits s.status since event s e o w in
    rw same (report_by_status-opened s.status event s e)

-- While every report comes before the sleep window of the opening has passed (or the rule has no
-- recover condition), an Open state is left exactly as it is, whatever the outcomes reported.
pub run-opened :
    (since : ℕ) (events : List Event) (s : RuleState)
    → s.status ≡ opened
    → s.opened_at ≡ some since
    → All (Waits (recover_condition s.rule.block_configs) since) events
    → run events s ≡ s
unfolding run
run-opened since [] s e o w = refl
run-opened since (event ∷ rest) s e o w =
    ap (run rest) (report_status-Waits since event s e o w.0) ∙ run-opened since rest s e o w.1
