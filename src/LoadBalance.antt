-- ===== src/LoadBalance.antt =====
-- The load balancers (src/plugins/loadbalance), which take one of the instances that the routers left.
pub mod Random
pub mod RingHash
pub mod RoundRobin
pub mod Tests
