-- ===== src/CircuitBreaker/Rule.antt =====
-- The circuit-breaker rules of the control plane, as far as composite/circuitbreaker.rs reads them.
-- `unread` stands for the encoding of all the other fields of a message, which only the comparison
-- of two rules sees.
use native.Mathlib.Decide.{ℕ_discrete}
use pole_client_rust.Common.{
  ℕ, String, String_discrete, Bool, true, false, Option, none, some, List, [], ◌∷◌, ◌++◌,
}

pub data TriggerType : Type 0 where
  consecutive_error : TriggerType
  other : ℕ → TriggerType

abbrev pub is_consecutive_error : TriggerType → Bool
is_consecutive_error consecutive_error = true
is_consecutive_error (other n) = false

pub record TriggerCondition : Type 0 where
  pub trigger_type : TriggerType
  pub error_count : ℕ
  pub minimum_request : ℕ
  pub unread : String

pub record RecoverCondition : Type 0 where
  pub sleep_window : ℕ
  pub consecutive_success : ℕ

pub record BlockConfig : Type 0 where
  pub trigger_conditions : List TriggerCondition
  pub unread : String

pub record CircuitBreakerPolicy : Type 0 where
  pub block_config : Option BlockConfig
  pub recover_condition : Option RecoverCondition
  pub unread : String

pub record ServiceSelector : Type 0 where
  pub namespace : String
  pub service : String
  pub unread : String

pub record RuleMatcher : Type 0 where
  pub source : Option ServiceSelector
  pub destination : Option ServiceSelector

pub record CircuitBreakerRule : Type 0 where
  pub name : String
  pub enable : Bool
  pub priority : ℕ
  pub block_configs : List CircuitBreakerPolicy
  pub rule_matcher : Option RuleMatcher
  pub unread : String

-- `*current_rules == rules`, the derived equality of the messages.
pub rules_discrete : Discrete (List CircuitBreakerRule)
rules_discrete = hlevel (String_discrete, ℕ_discrete)

-- `recover_condition`: the first policy that has one decides.
unfoldable pub recover_condition : List CircuitBreakerPolicy → Option RecoverCondition
recover_condition [] = none
recover_condition (p ∷ rest) = elim p.recover_condition [
  | some c ↦ some c
  | none ↦ recover_condition rest
]

-- The trigger conditions of all policies, in order, as `should_open` goes through them.
unfoldable pub trigger_conditions : List CircuitBreakerPolicy → List TriggerCondition
trigger_conditions [] = []
trigger_conditions (p ∷ rest) = elim p.block_config [
  | some b ↦ b.trigger_conditions ++ trigger_conditions rest
  | none ↦ trigger_conditions rest
]
