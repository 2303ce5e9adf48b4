-- ===== src/Router.antt =====
-- The routers, which narrow the instances of a service (src/plugins/router).
pub mod Rule
pub mod Flow
pub mod Nearby
pub mod Lane
pub mod Metadata
pub mod Health
pub mod Api
pub mod Tests
pub mod ChainTests
