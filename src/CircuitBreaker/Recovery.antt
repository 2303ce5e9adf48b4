-- ===== src/CircuitBreaker/Recovery.antt =====
-- How a rule's state leaves Open: the probation in HalfOpen
-- (src/plugins/circuitbreaker/composite/circuitbreaker.rs).
use pole_client_rust.Common.{
  ℕ, suc, ◌+◌, ◌-◌, ◌≤◌, ◌<◌, ◌≡◌, refl, ◌∙◌, ap, true, false, some, List, [], ◌∷◌, arith, leb,
  add_u32, u32_mod, u32_max, All, length, ltb, Bool-cases, inl, inr, if◌then◌else◌, Option, none,
}
use pole_client_rust.CircuitBreaker.Rule.{RecoverCondition, recover_condition}
use pole_client_rust.CircuitBreaker.State.{
  Status, close, half_open, opened, destroy, RetStatus, RuleState, nanos, to_close,
  recover_success_threshold, refresh_open, refresh_by_status, refresh_status, report_by_status,
  report_status, is_error_status,
}
use pole_client_rust.CircuitBreaker.Transitions.{Event, run}

-- A report of a call that did not fail.
abbrev pub IsSuccess : Event → Type 0
IsSuccess event = is_error_status event.1 ≡ false

half_open_step :
    (st : Status) (now : ℕ) (ret : RetStatus) (s : RuleState)
    → st ≡ half_open
    → is_error_status ret ≡ false
    → s.consecutive_successes + 1 < u32_mod
    → report_by_status st now ret s ≡ (
        if leb (recover_success_threshold s) (s.consecutive_successes + 1)
        then to_close s
        else record s { consecutive_successes = s.consecutive_successes + 1 })
unfolding report_by_status recover_success_threshold to_close
half_open_step opened now ret s e h b = cc
half_open_step close now ret s e h b = cc
half_open_step destroy now ret s e h b = cc
half_open_step half_open now ret s e h b =
    let fits : add_u32 s.consecutive_successes 1 ≡ s.consecutive_successes + 1 = omega arith in
    rw (h, fits)

refresh_half_open :
    (st : Status) (now : ℕ) (s : RuleState) → st ≡ half_open → refresh_by_status st now s ≡ s
unfolding refresh_by_status
refresh_half_open half_open now s e = refl
refresh_half_open opened now s e = cc
refresh_half_open close now s e = cc
refresh_half_open destroy now s e = cc

half_open_report :
    (event : Event) (s : RuleState)
    → s.status ≡ half_open
    → is_error_status event.1 ≡ false
    → s.consecutive_successes + 1 < u32_mod
    → report_status event.0 event.1 s ≡ (
        if leb (recover_success_threshold s) (s.consecutive_successes + 1)
        then to_close s
        else record s { consecutive_successes = s.consecutive_successes + 1 })
unfolding report_status refresh_status
half_open_report event s e h b =
    rw (refresh_half_open s.status event.0 s e) (half_open_step s.status event.0 event.1 s e h b)

abbrev counted : RuleState → ℕ → RuleState
counted s n = record s { consecutive_successes = n }

-- In HalfOpen, `n` successes in a row: below the threshold they are counted.
half_open_counts :
    (events : List Event) (s : RuleState)
    → s.status ≡ half_open
    → recover_success_threshold s ≤ u32_max
    → All IsSuccess events
    → s.consecutive_successes + length events < recover_success_threshold s
    → run events s ≡ counted s (s.consecutive_successes + length events)
unfolding run recover_success_threshold
half_open_counts [] s e t a h =
    let z : s.consecutive_successes + 0 ≡ s.consecutive_successes = omega arith in rw z
half_open_counts (event ∷ rest) s e t a h =
    let next : ℕ = s.consecutive_successes + 1 in
    let below : leb (recover_success_threshold s) next ≡ false = ground arith in
    let step : report_status event.0 event.1 s ≡ counted s next =
      half_open_report event s e a.0 (omega arith) ∙ rw below in
    let total : next + length rest ≡ s.consecutive_successes + suc (length rest) = omega arith in
    ap (run rest) step
    ∙ half_open_counts rest (counted s next) e t a.1 (omega arith)
    ∙ ap (counted s) total

half_open_closes :
    (events : List Event) (s : RuleState)
    → s.status ≡ half_open
    → recover_success_threshold s ≤ u32_max
    → All IsSuccess events
    → 0 < length events
    → s.consecutive_successes + length events ≡ recover_success_threshold s
    → run events s ≡ to_close s
unfolding run recover_success_threshold to_close
half_open_closes [] s e t a p h = absurd (omega arith)
half_open_closes (event ∷ []) s e t a p h =
    half_open_report event s e a.0 (omega arith)
    ∙ (let full : leb (recover_success_threshold s) (s.consecutive_successes + 1) ≡ true =
          ground arith in
        rw full)
half_open_closes (event ∷ second ∷ rest) s e t a p h =
    let next : ℕ = s.consecutive_successes + 1 in
    let below : leb (recover_success_threshold s) next ≡ false = ground arith in
    let step : report_status event.0 event.1 s ≡ counted s next =
      half_open_report event s e a.0 (omega arith) ∙ rw below in
    ap (run (second ∷ rest)) step
    ∙ half_open_closes (second ∷ rest) (counted s next) e t a.1 (omega arith) (omega arith)

-- The state that an Open one turns into when its sleep window has passed.
abbrev pub on_probation : RuleState → RuleState
on_probation s = record s { status = half_open; consecutive_successes = 0 }

refresh_open_due :
    (c : Option RecoverCondition) (o : Option ℕ) (c' : RecoverCondition) (since now : ℕ)
    (s : RuleState)
    → c ≡ some c'
    → o ≡ some since
    → nanos c'.sleep_window ≤ now - since
    → refresh_open now c o s ≡ on_probation s
unfolding refresh_open
refresh_open_due none o c' since now s e f h = cc
refresh_open_due (some c) none c' since now s e f h = cc
refresh_open_due (some c) (some t) c' since now s e f h =
    let same : t ≡ since = cc in
    let window : c.sleep_window ≡ c'.sleep_window = cc in
    let due : leb (nanos c.sleep_window) (now - t) ≡ true = rw (same, window) (ground arith) in
    rw due

refresh_due :
    (st : Status) (c : RecoverCondition) (since now : ℕ) (s : RuleState)
    → st ≡ opened
    → recover_condition s.rule.block_configs ≡ some c
    → s.opened_at ≡ some since
    → nanos c.sleep_window ≤ now - since
    → refresh_by_status st now s ≡ on_probation s
unfolding refresh_by_status
refresh_due opened c since now s e r o h =
    refresh_open_due (recover_condition s.rule.block_configs) s.opened_at c since now s r o h
refresh_due close c since now s e r o h = cc
refresh_due half_open c since now s e r o h = cc
refresh_due destroy c since now s e r o h = cc

module _ (c : RecoverCondition) (since : ℕ) (s : RuleState) (first : Event)
    (rest : List Event) where
  -- The first report after the window acts on the state on probation, and so do all after it.
  run_due :
      s.status ≡ opened
      → recover_condition s.rule.block_configs ≡ some c
      → s.opened_at ≡ some since
      → nanos c.sleep_window ≤ first.0 - since
      → run (first ∷ rest) s ≡ run (first ∷ rest) (on_probation s)
  unfolding run report_status refresh_status refresh_by_status
  run_due e r o h = rw (refresh_due s.status c since first.0 s e r o h)

  -- An Open state, once a report comes after its sleep window, needs as many successes in a row as
  -- its threshold: with fewer it is HalfOpen and has counted them, with exactly as many it is Close
  -- and all its counters are cleared.
  pub recovery :
      s.status ≡ opened
      → recover_condition s.rule.block_configs ≡ some c
      → s.opened_at ≡ some since
      → nanos c.sleep_window ≤ first.0 - since
      → recover_success_threshold s ≤ u32_max
      → All IsSuccess (first ∷ rest)
      → length (first ∷ rest) ≤ recover_success_threshold s
      → run (first ∷ rest) s ≡ (
          if ltb (length (first ∷ rest)) (recover_success_threshold s)
          then counted (on_probation s) (length (first ∷ rest))
          else to_close s)
  unfolding recover_success_threshold to_close
  recovery e r o h t a m =
      let from_zero : 0 + length (first ∷ rest) ≡ length (first ∷ rest) = omega arith in
      elim (Bool-cases (ltb (length (first ∷ rest)) (recover_success_threshold s))) [
        | inl few ↦
            run_due e r o h
            ∙ half_open_counts (first ∷ rest) (on_probation s) refl t a (ground arith)
            ∙ ap (counted (on_probation s)) from_zero
            ∙ rw few
        | inr enough ↦
            run_due e r o h
            ∙ half_open_closes (first ∷ rest) (on_probation s) refl t a (omega arith) (ground arith)
            ∙ rw enough
      ]
