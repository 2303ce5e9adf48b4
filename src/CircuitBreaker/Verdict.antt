-- ===== src/CircuitBreaker/Verdict.antt =====
-- What `check_resource` answers, and on what it depends
-- (src/plugins/circuitbreaker/composite/circuitbreaker.rs).
use mathlib.Core.Logic.{ite}
use pole_client_rust.Common.{
  ℕ, String, ◌≡◌, ◌≢◌, refl, sym, ap, ◌∙◌, Bool, true, false, if◌then◌else◌, Option, none, some,
  List, [], ◌∷◌, map, find, arith, lookup, lookup-insert, str_eq, str_eq_iff, Bool-cases, inl, inr,
}
use pole_client_rust.CircuitBreaker.Rule.{CircuitBreakerRule, rules_discrete}
use pole_client_rust.CircuitBreaker.State.{
  Status, close, half_open, opened, destroy, RetStatus, RuleState, refresh_status,
}
use pole_client_rust.CircuitBreaker.Resource.{Resource, resource_key}
use pole_client_rust.CircuitBreaker.Breaker.{
  Breaker, BreakerStatus, closed_status, is_opened, after_loop, note_half_open, update_rules,
  check_loop, check_found, check_resource, report_stat,
}

abbrev pub is_half_open : Status → Bool
is_half_open half_open = true
is_half_open close = false
is_half_open opened = false
is_half_open destroy = false

-- The states of the resource, as they are at `now`; none if nothing was ever reported of it.
abbrev current : ℕ → Option (List RuleState) → List RuleState
current now none = []
current now (some ss) = map (refresh_status now) ss

abbrev pub states_at : ℕ → Resource → Breaker → List RuleState
states_at now r b = current now (lookup (resource_key r) b.states)

abbrev half_open_or_close : Option RuleState → BreakerStatus
half_open_or_close (some s) = record { status = half_open; circuit_breaker = s.rule.name }
half_open_or_close none = closed_status

abbrev opened_or : Option RuleState → BreakerStatus → BreakerStatus
opened_or (some s) other = record { status = opened; circuit_breaker = s.rule.name }
opened_or none other = other

-- Open under the name of the first Open rule, else HalfOpen under that of the first HalfOpen one,
-- else Close.
abbrev pub worst : List RuleState → BreakerStatus
worst ss =
    opened_or (find (λ s. is_opened s.status) ss)
      (half_open_or_close (find (λ s. is_half_open s.status) ss))

noted : Option String → List RuleState → Option String
noted (some n) ss = some n
noted none ss = elim (find (λ s. is_half_open s.status) ss) [
  | some s ↦ some s.rule.name
  | none ↦ none
]

after_loop-noted :
    (ss : List RuleState)
    → after_loop (noted none ss) ≡ half_open_or_close (find (λ s. is_half_open s.status) ss)
unfolding noted
after_loop-noted ss = ground arith

note_half_open-some : (st : Status) (name n : String) → note_half_open st name (some n) ≡ some n
note_half_open-some close name n = refl
note_half_open-some half_open name n = refl
note_half_open-some opened name n = refl
note_half_open-some destroy name n = refl

note_half_open-none :
    (st : Status) (name : String)
    → note_half_open st name none ≡ (if is_half_open st then some name else none)
note_half_open-none close name = refl
note_half_open-none half_open name = refl
note_half_open-none opened name = refl
note_half_open-none destroy name = refl

noted-cons :
    (found : Option String) (s : RuleState) (rest : List RuleState)
    → noted (note_half_open s.status s.rule.name found) rest ≡ noted found (s ∷ rest)
unfolding noted
noted-cons (some n) s rest = ground (arith, note_half_open-some s.status s.rule.name n)
noted-cons none s rest = ground (arith, note_half_open-none s.status s.rule.name)

check_loop-worst :
    (now : ℕ) (found : Option String) (ss : List RuleState)
    → (check_loop now found ss).1
      ≡ opened_or
          (find (λ s. is_opened s.status) (map (refresh_status now) ss))
          (after_loop (noted found (map (refresh_status now) ss)))
unfolding check_loop noted
check_loop-worst now none [] = refl
check_loop-worst now (some n) [] = refl
check_loop-worst now found (s ∷ rest) =
    let s' = refresh_status now s in
    let found' = note_half_open s'.status s'.rule.name found in
    let ih = check_loop-worst now found' rest in
    elim (Bool-cases (is_opened s'.status)) [
      | inl t ↦ rw t
      | inr f ↦ rw f (ih ∙ rw (noted-cons found s' (map (refresh_status now) rest)))
    ]

check_found-worst :
    (now : ℕ) (key : String) (o : Option (List RuleState)) (b : Breaker)
    → (check_found now key o b).1 ≡ worst (current now o)
unfolding check_found
check_found-worst now key none b = refl
check_found-worst now key (some ss) b =
    check_loop-worst now none ss
    ∙ ap (opened_or (find (λ s. is_opened s.status) (map (refresh_status now) ss)))
        (after_loop-noted (map (refresh_status now) ss))

-- The answer of `check_resource` is the worst status among the resource's rules at that time, with
-- the name of the first rule in that status; a resource of which nothing was reported is Close.
pub check_resource-worst :
    (now : ℕ) (r : Resource) (b : Breaker) → (check_resource now r b).1 ≡ worst (states_at now r b)
unfolding check_resource
check_resource-worst now r b =
    check_found-worst now (resource_key r) (lookup (resource_key r) b.states) b

module _ (r other : Resource) (apart : resource_key r ≢ resource_key other) where
  apart_test : str_eq (resource_key r) (resource_key other) ≡ false
  apart_test = elim (Bool-cases (str_eq (resource_key r) (resource_key other))) [
    | inl t ↦ absurd (apart ((str_eq_iff _ _).0 t))
    | inr f ↦ f
  ]

  lookup-report_stat :
      (now : ℕ) (ret : RetStatus) (b : Breaker)
      → lookup (resource_key other) (report_stat now r ret b).states
        ≡ lookup (resource_key other) b.states
  unfolding report_stat
  lookup-report_stat now ret b = rw (lookup-insert, apart_test)

  lookup-check_found :
      (now : ℕ) (o : Option (List RuleState)) (b : Breaker)
      → lookup (resource_key other) (check_found now (resource_key r) o b).0.states
        ≡ lookup (resource_key other) b.states
  unfolding check_found
  lookup-check_found now none b = refl
  lookup-check_found now (some ss) b = rw (lookup-insert, apart_test)

  -- A report of one resource, and a check of it, leave the answer for every resource with another key
  -- as it was, at every later time.
  pub check_resource-other :
      (now later : ℕ) (ret : RetStatus) (b : Breaker)
      → ((check_resource later other (report_stat now r ret b)).1
          ≡ (check_resource later other b).1)
        × ((check_resource later other (check_resource now r b).0).1
            ≡ (check_resource later other b).1)
  unfolding check_resource
  check_resource-other now later ret b = (
    check_found-worst later (resource_key other) _ _
        ∙ rw (lookup-report_stat now ret b) (
            sym (
              check_found-worst later (resource_key other) (lookup (resource_key other) b.states)
                b)),
    check_found-worst later (resource_key other) _ _
        ∙ rw (lookup-check_found now (lookup (resource_key r) b.states) b) (
            sym (
              check_found-worst later (resource_key other) (lookup (resource_key other) b.states)
                b)),
  )

check_resource-ite :
    {P : Type 0} (d : Dec P) (now : ℕ) (r : Resource) (b : Breaker)
    (rules : List CircuitBreakerRule)
    → (check_resource now r (ite d b (record { rules = rules; states = [] }))).1
      ≡ ite d (check_resource now r b).1 closed_status
unfolding check_resource check_found lookup
check_resource-ite (yes same) now r b rules = refl
check_resource-ite (no changed) now r b rules = refl

-- A rule snapshot equal to the one in force changes no answer; any other one makes every resource
-- Close.
pub check_resource-update_rules :
    (now : ℕ) (r : Resource) (rules : List CircuitBreakerRule) (b : Breaker)
    → (check_resource now r (update_rules rules b)).1
      ≡ ite (rules_discrete b.rules rules) (check_resource now r b).1 closed_status
unfolding update_rules
check_resource-update_rules now r rules b =
    check_resource-ite (rules_discrete b.rules rules) now r b rules
