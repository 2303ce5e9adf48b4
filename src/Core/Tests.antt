-- ===== src/Core/Tests.antt =====
-- Keys of the resource cache and failover files on concrete resources (src/core/model/cache.rs,
-- src/plugins/cache/memory/failover.rs).
use pole_client_rust.Common.{
  ◌≡◌, ◌≢◌, ◌↔◌, refl, String, true, false, none, some, [], ◌∷◌, concat, lookup, arith,
}
use pole_client_rust.Core.Outcome.{value}
use pole_client_rust.Core.Cache.{
  lane_rule, config_file, service, lane, ResourceEventKey, event_name, key_text, to_persist_file,
  SpecService,
}
use pole_client_rust.Core.Cache.Failover.{
  LocalCacheConfig, DiscoverResponse, service_file, failover_naming_load, save_naming_failover,
  discover_response_watch_key,
}
use pole_client_rust.Core.Cache.Delivered.{save_naming_failover-watched}
use pole_client_rust.Core.Cache.Keys.{resource_parts, key_text_injective}

abbrev orders_lanes : ResourceEventKey
orders_lanes = record {
  namespace = "default";
  event_type = lane_rule;
  filter = ("service", "orders") ∷ [];
}

orders_lanes_text : key_text orders_lanes ≡ value "LaneRule#default#orders"
unfolding key_text lookup
orders_lanes_text = refl

key_text_injective_example :
    (lane_rule ≡ lane_rule)
    × (◌≡◌ {A = String} "default" "default")
    × (resource_parts lane_rule (("service", "orders") ∷ [])
        ≡ resource_parts lane_rule (("service", "orders") ∷ []))
unfolding lookup
key_text_injective_example =
    key_text_injective orders_lanes orders_lanes "LaneRule#default#orders" (omega arith)
      (omega arith) tt tt orders_lanes_text orders_lanes_text

abbrev config_key : String → String → ResourceEventKey
config_key group file = record {
  namespace = "default";
  event_type = config_file;
  filter = ("group", group) ∷ ("file", file) ∷ [];
}

-- A `#` in the name of a group: two files with one text.
two_files_one_text : key_text (config_key "a#b" "c") ≡ key_text (config_key "a" "b#c")
unfolding key_text lookup event_name concat
two_files_one_text = refl

abbrev conf : LocalCacheConfig
conf = record { persist_enable = true; persist_dir = "/var/pole" }

abbrev orders : SpecService
orders = record { namespace = "default"; name = "orders"; revision = "rev-1" }

abbrev lanes_answer : DiscoverResponse
lanes_answer = record {
  type = lane;
  service = some orders;
  service_identity = none;
  has_identity_bundle = false;
}

lanes_file :
    failover_naming_load conf orders_lanes ≡ value "/var/pole/svc#default#orders#lane_rule.data"
unfolding failover_naming_load service_file to_persist_file lookup concat
lanes_file = refl

not_a_list : lane_rule ≢ service
not_a_list e = cc

save_naming_failover-watched_example :
    (save_naming_failover conf lanes_answer
      ≡ value (some "/var/pole/svc#default#orders#lane_rule.data"))
    ↔ ((text : String) × (discover_response_watch_key lanes_answer none ≡ some text)
        × (key_text orders_lanes ≡ value text))
save_naming_failover-watched_example =
    save_naming_failover-watched conf lanes_answer none orders orders_lanes
      "/var/pole/svc#default#orders#lane_rule.data" refl refl (omega arith) (omega arith) not_a_list
      lanes_file
