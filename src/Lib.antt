-- ===== src/Lib.antt =====
-- pole-client-rust: the decisions that the SDK takes for its callers.
--
-- The SDK is a client of a control plane. An API of src/traffic fetches the rules of a service
-- through the engine, asks a plugin of src/plugins, and reports back what became of the call. What is
-- modelled here are the parts that decide:
--
-- - CircuitBreaker: src/plugins/circuitbreaker/composite/circuitbreaker.rs keeps the states of the
--   rules of each resource. Rule holds the control plane's messages, State the state machine of one
--   rule (CircuitBreakerRuleState), Resource the keys of resources and the rules that apply to one,
--   Breaker the table of states (CompositeCircuitBreaker), Flow what lies above it:
--   CircuitBreakerFlow of src/core/flow.rs, the API of src/traffic/circuitbreaker/default.rs and the
--   InvokeHandler of src/traffic/circuitbreaker/api.rs.
-- - Match: how a rule is matched with a request. Label is src/plugins/router/rule/helper.rs, Trie and
--   Index are ApiMatchIndex of src/traffic/matcher.rs, which the rate limiter and the traffic policies
--   share.
-- - Policy: src/traffic/policy/default.rs, what the rules say of a request before it is routed. Security
--   is evaluate_security, Traffic are evaluate_mirrors and evaluate_mock, Governance the evaluation of
--   all three over the resource cache, Address the base URLs that copies are sent to.
-- - Router: Router.Rule is the rule router, src/plugins/router/rule/rule.rs, with choose_instances and
--   enable in Router.Rule.Choose. Nearby, Lane, Metadata and Health are nearby/nearby.rs, lane/lane.rs,
--   metadata/metadata.rs and health/health.rs beside it. Flow is RouterFlow of src/core/flow.rs, which
--   runs a chain of routers, and Api is DefaultRouterAPI of src/traffic/router/default.rs, which asks
--   Policy and then runs the chain.
-- - RateLimit: Req is src/traffic/ratelimit/req.rs, Lease the QuotaLease of
--   src/traffic/ratelimit/api.rs over a backend of any kind, Rule the rules and the keys of the
--   counters, Select the choice of triggers (matching_quota_triggers), Local the LocalQuotaCounter with
--   its calls in Local.Counter, these all of src/traffic/ratelimit/default.rs.
-- - LoadBalance: Random is src/plugins/loadbalance/random/random.rs, RingHash is
--   src/plugins/loadbalance/ringhash/ringhash.rs, RoundRobin, with its tables as the state, is
--   src/plugins/loadbalance/roundrobin/roundrobin.rs.
-- - Core: the types of src/core/model that these share; Core.Context is the context of a route, of
--   src/core/model/router.rs, and Core.Cache the keys of cached resources, of
--   src/core/model/cache.rs, with the paths of failover files
--   (src/plugins/cache/memory/failover.rs) and the watch keys of answers
--   (src/plugins/connector/grpc/connector.rs) in Core.Cache.Failover. Common: lists, tables, texts, decimal numbers, machine words.
--
-- How the code is read:
-- - A function of a locked object is one step on its state, which it takes and returns. It reads the
--   clock once, as the argument `now` in nanoseconds.
-- - `Result<A, PoleError>` is Result, with the error's code for the error; where a call can also panic
--   (`expect`, `unwrap`), or ask again for a lock that it holds, it is Outcome. Texts of errors and of the log are left out.
-- - Unsigned integers are natural numbers, with the wrap-around of a release build written out;
--   `saturating_sub` is the subtraction of natural numbers.
-- - A `HashMap` is an association list (Common.Maps) and a `HashSet` a list. No definition depends on
--   the order of iteration of the program's maps.
-- - A message of the control plane is a record of the fields that are read; an accessor of an enum
--   field has been applied. In the breaker's rules, which are compared whole, `unread` stands for the
--   other fields.
-- - An asynchronous call runs to its end; a call that is dropped on the way is not modelled.
-- - Third-party code is an argument: random numbers, hashes (`hash` is DefaultHasher), regular
--   expressions (`compile`), SHA-256 (`digest`, `sha256`), hexadecimal texts (`decode_hex`), the test
--   for white space (`is_blank`), the decoding of a CustomRoute (`decode`), the resource cache
--   (`load`), the location provider (`location`), `Instant::checked_add`, and the backend of a lease.
--   The random id of a new lease is an argument.
--
-- Loops are recursion on the list or the range of numbers that they walk. The one bound is that of
-- Common.decimal: a u64 has at most 20 digits.
--
-- Not modelled: the connector but for its watch keys, the memory cache, discovery, the configuration center, identity,
-- observability, the logger and the configuration of the SDK, which are I/O and wiring; the sending of
-- a copy of a request over HTTP or gRPC; the distributed quota, fault detection and the items of the
-- resource cache, which the model does not reach yet; of src/traffic/ratelimit/default.rs the
-- reservation over several backends.
pub mod Common
pub mod Core
pub mod CircuitBreaker
pub mod Match
pub mod Policy
pub mod Router
pub mod RateLimit
pub mod LoadBalance
