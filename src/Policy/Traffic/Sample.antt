-- ===== src/Policy/Traffic/Sample.antt =====
-- The sample of a mirror or a mock (`traffic_sample_hit` of src/traffic/policy/default.rs).
use pole_client_rust.Common.{ℕ, ◌%◌, ◌<◌, ◌≡◌, ◌↔◌, String, true, List, arith}
use pole_client_rust.Core.Context.{RouteContext}
use pole_client_rust.Policy.Traffic.{hashed_texts, traffic_sample_hit}

module _ (hash : List String → ℕ) (ctx : RouteContext) (salt : String) where
  -- The place of the request among a hundred.
  abbrev pub bucket : ℕ
  bucket = hash (hashed_texts ctx salt) % 100

  -- A request is in the sample of a percentage exactly if its place, from 0 to 99, is below it: at 0
  -- it never is, at 100 and above it always is, and a higher percentage keeps what a lower one takes.
  pub traffic_sample_hit-bucket :
      (percent : ℕ) → (traffic_sample_hit hash ctx percent salt ≡ true) ↔ (bucket < percent)
  unfolding traffic_sample_hit
  traffic_sample_hit-bucket percent = ground arith
