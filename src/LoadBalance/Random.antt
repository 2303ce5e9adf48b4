-- ===== src/LoadBalance/Random.antt =====
-- The weighted random choice (src/plugins/loadbalance/random/random.rs). The random number is an
-- argument.
pub mod Chosen
use pole_client_rust.Common.{
  ℕ, zero, ◌+◌, ◌%◌, Bool, if◌then◌else◌, ◌==◌, leb, ltb, ◌&&◌, Option, none, some, List, [], ◌∷◌,
  length, get_elem?, u64_mod,
}
use pole_client_rust.Core.Error.{instance_info_error}
use pole_client_rust.Core.Outcome.{Outcome, value, failed, panicked}
use pole_client_rust.Core.Naming.{Instance, ServiceInstances}

-- The loop, with its variables `left` and `right`, which are equal before each turn.
unfoldable pub pick : ℕ → ℕ → List Instance → Option Instance
pick r left [] = none
pick r left (i ∷ rest) =
    let right = (left + i.weight) % u64_mod in
    let later = pick r right rest in if leb left r && ltb r right then some i else later

abbrev at_index : Option Instance → Outcome Instance
at_index none = panicked
at_index (some i) = value i

-- The instance taken when the loop found none.
unfoldable pub fallback : ServiceInstances → Outcome Instance
fallback s =
    if length s.instances == 0
    then panicked
    else at_index (get_elem? s.instances (s.total_weight % length s.instances))

abbrev or_fallback : ServiceInstances → Option Instance → Outcome Instance
or_fallback s none = fallback s
or_fallback s (some i) = value i

unfoldable pub choose_random : ℕ → ServiceInstances → Outcome Instance
unfolding pick fallback
choose_random random s =
    if s.total_weight == 0
    then failed instance_info_error
    else or_fallback s (pick (random % s.total_weight) 0 s.instances)
