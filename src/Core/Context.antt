-- ===== src/Core/Context.antt =====
-- What a router is told of a request (src/core/model/router.rs, src/core/plugin/router.rs).
-- `RouteContext` holds the fields of its `route_info` beside its own; `extensions` gives the plugins.
use pole_client_rust.Common.{String, str_eq, Bool, ◌||◌, Option, List, any, Table}
use pole_client_rust.Core.Traffic.{ArgumentType}
use pole_client_rust.Core.Naming.{ServiceKey, ServiceInstances}

pub data MetadataFailoverType : Type 0 where
  metadata_failover_none metadata_failover_all metadata_failover_no_key : MetadataFailoverType

pub record RouterChain : Type 0 where
  pub before : List String
  pub core : List String
  pub after : List String

unfoldable pub exist_route : RouterChain → String → Bool
exist_route chain n =
    any (λ x. str_eq x n) chain.before
    || any (λ x. str_eq x n) chain.core
    || any (λ x. str_eq x n) chain.after

pub record RouteContext : Type 0 where
  pub caller : ServiceKey
  pub callee : ServiceKey
  pub chain : RouterChain
  pub metadata : Table String
  pub metadata_failover : MetadataFailoverType
  pub traffic_label_provider : ArgumentType → String → Option String
  pub authenticated_caller : Option ServiceKey

pub data RouteState : Type 0 where
  next retry : RouteState

pub record RouteResult : Type 0 where
  pub instances : ServiceInstances
  pub state : RouteState
