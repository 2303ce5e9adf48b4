-- ===== src/Core/Cache/Kinds.antt =====
-- The kinds of resource that have a file for each service, and the answers about them
-- (src/plugins/cache/memory/failover.rs, src/plugins/connector/grpc/connector.rs).
use pole_client_rust.Common.{
  ◌≡◌, ◌≢◌, ◌⊎◌, refl, sym, ap, ◌∙◌, inl, inr, String, Bool, true, false, Option, none, some, Table,
  lookup,
}
use pole_client_rust.Core.Outcome.{value, ◌>>=◌}
use pole_client_rust.Core.Naming.{ServiceKey}
use pole_client_rust.Core.Cache.{
  EventType, unknown, instance_event, router_rule, circuit_breaker_rule, rate_limit_rule, service,
  fault_detect_rule, service_contract, lane_rule, lossless_rule, traffic_security_rule,
  traffic_mirror_rule, traffic_mock_rule, service_identity, service_identity_bundle, namespaces,
  config_file, config_group, config_groups, to_persist_file, DiscoverResponseType,
  instance_response, custom_route_rule, rate_limit, circuit_breaker, fault_detector, lane, lossless,
  traffic_security_response, traffic_mirror_response, traffic_mock_response, services,
  namespaces_response, identity_response, identity_bundle_response, other_response,
  naming_spec_to_persist_file, ResourceEventKey, SpecService, unwrap, resource_name,
}
use pole_client_rust.Core.Cache.Failover.{
  LocalCacheConfig, DiscoverResponse, services_file, service_file, path_of, load_file_of,
  save_file_of, watch_key, service_rule_watch_key, services_key, identity_key, bundle_key,
  watch_key_of,
}

value_eq : {a b : String} → value a ≡ value b → a ≡ b
value_eq e = cc

saved_eq : {a b : String} → value (some a) ≡ value (some b) → a ≡ b
saved_eq e = cc

some_eq : {a b : String} → some a ≡ some b → a ≡ b
some_eq e = cc

-- A kind that has a file for each service.
pub record IsKept (t : EventType) : Type 0 where
  pub owned : to_persist_file t ≢ "unknown"
  pub by_service :
      (filter : Table String) → resource_name t filter ≡ unwrap (lookup "service" filter)

named :
    (e : EventType) (o : Option ServiceKey) (text : String)
    → identity_key e o ≡ some text
    → (owner : ServiceKey) × (text ≡ watch_key e owner.namespace owner.name)
named e none text h = cc
named e (some owner) text h = (owner, sym (some_eq h))

module _ (conf : LocalCacheConfig) where
  pub record IsLoaded (t : EventType) (key : ResourceEventKey) (path : String) : Type 0 where
    pub kept : IsKept t
    pub name : String
    pub named : lookup "service" key.filter ≡ some name
    pub is : path ≡ service_file conf key.namespace name (to_persist_file t)

  path_of-IsLoaded :
      (t : EventType) (key : ResourceEventKey) (path : String)
      → IsKept t
      → path_of t conf key ≡ value path
      → IsLoaded t key path
  path_of-IsLoaded t key path k h = found (lookup "service" key.filter) refl h
    where
      found :
          (o : Option String)
          → lookup "service" key.filter ≡ o
          → (unwrap o >>= λ name. value (service_file conf key.namespace name (to_persist_file t)))
            ≡ value path
          → IsLoaded t key path
      found none e g = cc
      found (some name) e g = record { kept = k; name = name; named = e; is = sym (value_eq g) }

  pub load-IsLoaded :
      (t : EventType) (key : ResourceEventKey) (path : String)
      → t ≢ service
      → load_file_of t conf key ≡ value path
      → IsLoaded t key path
  unfolding to_persist_file
  load-IsLoaded unknown key path n h = cc
  load-IsLoaded instance_event key path n h =
      path_of-IsLoaded instance_event key path (record { owned = λ q. cc; by_service = λ f. refl })
        h
  load-IsLoaded router_rule key path n h =
      path_of-IsLoaded router_rule key path (record { owned = λ q. cc; by_service = λ f. refl }) h
  load-IsLoaded circuit_breaker_rule key path n h =
      path_of-IsLoaded circuit_breaker_rule key path
        (record { owned = λ q. cc; by_service = λ f. refl }) h
  load-IsLoaded rate_limit_rule key path n h =
      path_of-IsLoaded rate_limit_rule key path (record { owned = λ q. cc; by_service = λ f. refl })
        h
  load-IsLoaded service key path n h = absurd (n refl)
  load-IsLoaded fault_detect_rule key path n h =
      path_of-IsLoaded fault_detect_rule key path
        (record { owned = λ q. cc; by_service = λ f. refl }) h
  load-IsLoaded service_contract key path n h = cc
  load-IsLoaded lane_rule key path n h =
      path_of-IsLoaded lane_rule key path (record { owned = λ q. cc; by_service = λ f. refl }) h
  load-IsLoaded lossless_rule key path n h =
      path_of-IsLoaded lossless_rule key path (record { owned = λ q. cc; by_service = λ f. refl }) h
  load-IsLoaded traffic_security_rule key path n h =
      path_of-IsLoaded traffic_security_rule key path
        (record { owned = λ q. cc; by_service = λ f. refl }) h
  load-IsLoaded traffic_mirror_rule key path n h =
      path_of-IsLoaded traffic_mirror_rule key path
        (record { owned = λ q. cc; by_service = λ f. refl }) h
  load-IsLoaded traffic_mock_rule key path n h =
      path_of-IsLoaded traffic_mock_rule key path
        (record { owned = λ q. cc; by_service = λ f. refl }) h
  load-IsLoaded service_identity key path n h = cc
  load-IsLoaded service_identity_bundle key path n h = cc
  load-IsLoaded namespaces key path n h = cc
  load-IsLoaded config_file key path n h = cc
  load-IsLoaded config_group key path n h = cc
  load-IsLoaded config_groups key path n h = cc

  -- The file of an answer about a service is that of all services of the namespace, or that of the kind
  -- that the answer's watch key names.
  abbrev pub SavedAs : DiscoverResponseType → SpecService → String → Type 0
  SavedAs t svc path =
      (path ≡ services_file conf svc.namespace)
      ⊎ ((e : EventType) × (to_persist_file e ≢ "unknown")
          × (path ≡ service_file conf svc.namespace svc.name (to_persist_file e))
          × ((resp : DiscoverResponse) (identity : Option ServiceKey)
              → resp.service ≡ some svc
              → watch_key_of t resp identity ≡ some (watch_key e svc.namespace svc.name)))

  -- A watch key stands for a namespace, for a kind that is kept for a service, or for an identity.
  abbrev pub WatchedAs : DiscoverResponseType → SpecService → String → Type 0
  WatchedAs t svc text =
      (text ≡ svc.namespace)
      ⊎ (((e : EventType) × (text ≡ watch_key e svc.namespace svc.name)
            × (save_file_of t conf svc
                ≡ value (some (service_file conf svc.namespace svc.name (to_persist_file e)))))
          ⊎ ((e : EventType) × (to_persist_file e ≡ "unknown")
              × (owner : ServiceKey) × (text ≡ watch_key e owner.namespace owner.name)))

  pub save-kinds :
      (t : DiscoverResponseType) (svc : SpecService) (path : String)
      → save_file_of t conf svc ≡ value (some path)
      → SavedAs t svc path
  unfolding to_persist_file naming_spec_to_persist_file
  save-kinds services svc path h = inl (sym (saved_eq h))
  save-kinds instance_response svc path h = inr (
    instance_event,
    (λ q. cc),
    sym (saved_eq h),
    λ resp identity q. ap (λ o. service_rule_watch_key o instance_event) q,
  )
  save-kinds custom_route_rule svc path h = inr (
    router_rule,
    (λ q. cc),
    sym (saved_eq h),
    λ resp identity q. ap (λ o. service_rule_watch_key o router_rule) q,
  )
  save-kinds rate_limit svc path h = inr (
    rate_limit_rule,
    (λ q. cc),
    sym (saved_eq h),
    λ resp identity q. ap (λ o. service_rule_watch_key o rate_limit_rule) q,
  )
  save-kinds circuit_breaker svc path h = inr (
    circuit_breaker_rule,
    (λ q. cc),
    sym (saved_eq h),
    λ resp identity q. ap (λ o. service_rule_watch_key o circuit_breaker_rule) q,
  )
  save-kinds fault_detector svc path h = inr (
    fault_detect_rule,
    (λ q. cc),
    sym (saved_eq h),
    λ resp identity q. ap (λ o. service_rule_watch_key o fault_detect_rule) q,
  )
  save-kinds lane svc path h = inr (
    lane_rule,
    (λ q. cc),
    sym (saved_eq h),
    λ resp identity q. ap (λ o. service_rule_watch_key o lane_rule) q,
  )
  save-kinds lossless svc path h = inr (
    lossless_rule,
    (λ q. cc),
    sym (saved_eq h),
    λ resp identity q. ap (λ o. service_rule_watch_key o lossless_rule) q,
  )
  save-kinds traffic_security_response svc path h = inr (
    traffic_security_rule,
    (λ q. cc),
    sym (saved_eq h),
    λ resp identity q. ap (λ o. service_rule_watch_key o traffic_security_rule) q,
  )
  save-kinds traffic_mirror_response svc path h = inr (
    traffic_mirror_rule,
    (λ q. cc),
    sym (saved_eq h),
    λ resp identity q. ap (λ o. service_rule_watch_key o traffic_mirror_rule) q,
  )
  save-kinds traffic_mock_response svc path h = inr (
    traffic_mock_rule,
    (λ q. cc),
    sym (saved_eq h),
    λ resp identity q. ap (λ o. service_rule_watch_key o traffic_mock_rule) q,
  )
  save-kinds namespaces_response svc path h = cc
  save-kinds identity_response svc path h = cc
  save-kinds identity_bundle_response svc path h = cc
  save-kinds other_response svc path h = cc

  pub watch-kinds :
      (t : DiscoverResponseType) (resp : DiscoverResponse) (identity : Option ServiceKey)
      (svc : SpecService) (text : String)
      → resp.service ≡ some svc
      → watch_key_of t resp identity ≡ some text
      → WatchedAs t svc text
  unfolding to_persist_file naming_spec_to_persist_file
  watch-kinds services resp identity svc text s h =
      inl (sym (some_eq (ap services_key (sym s) ∙ h)))
  watch-kinds instance_response resp identity svc text s h = inr (
      inl (
        instance_event,
        sym (some_eq (ap (λ o. service_rule_watch_key o instance_event) (sym s) ∙ h)),
        refl,
      ))
  watch-kinds custom_route_rule resp identity svc text s h = inr (
      inl (
        router_rule,
        sym (some_eq (ap (λ o. service_rule_watch_key o router_rule) (sym s) ∙ h)),
        refl,
      ))
  watch-kinds rate_limit resp identity svc text s h = inr (
      inl (
        rate_limit_rule,
        sym (some_eq (ap (λ o. service_rule_watch_key o rate_limit_rule) (sym s) ∙ h)),
        refl,
      ))
  watch-kinds circuit_breaker resp identity svc text s h = inr (
      inl (
        circuit_breaker_rule,
        sym (some_eq (ap (λ o. service_rule_watch_key o circuit_breaker_rule) (sym s) ∙ h)),
        refl,
      ))
  watch-kinds fault_detector resp identity svc text s h = inr (
      inl (
        fault_detect_rule,
        sym (some_eq (ap (λ o. service_rule_watch_key o fault_detect_rule) (sym s) ∙ h)),
        refl,
      ))
  watch-kinds lane resp identity svc text s h = inr (
      inl
        (lane_rule, sym (some_eq (ap (λ o. service_rule_watch_key o lane_rule) (sym s) ∙ h)), refl))
  watch-kinds lossless resp identity svc text s h = inr (
      inl (
        lossless_rule,
        sym (some_eq (ap (λ o. service_rule_watch_key o lossless_rule) (sym s) ∙ h)),
        refl,
      ))
  watch-kinds traffic_security_response resp identity svc text s h = inr (
      inl (
        traffic_security_rule,
        sym (some_eq (ap (λ o. service_rule_watch_key o traffic_security_rule) (sym s) ∙ h)),
        refl,
      ))
  watch-kinds traffic_mirror_response resp identity svc text s h = inr (
      inl (
        traffic_mirror_rule,
        sym (some_eq (ap (λ o. service_rule_watch_key o traffic_mirror_rule) (sym s) ∙ h)),
        refl,
      ))
  watch-kinds traffic_mock_response resp identity svc text s h = inr (
      inl (
        traffic_mock_rule,
        sym (some_eq (ap (λ o. service_rule_watch_key o traffic_mock_rule) (sym s) ∙ h)),
        refl,
      ))
  watch-kinds identity_response resp identity svc text s h =
      let (owner, q) = named service_identity resp.service_identity text h in
      inr (inr (service_identity, refl, owner, q))
  watch-kinds identity_bundle_response resp identity svc text s h =
      let (owner, q) = by_bundle resp.has_identity_bundle h in
      inr (inr (service_identity_bundle, refl, owner, q))
    where
      by_bundle :
          (b : Bool)
          → bundle_key b identity ≡ some text
          → (owner : ServiceKey) × (text
              ≡ watch_key service_identity_bundle owner.namespace owner.name)
      by_bundle false g = cc
      by_bundle true g = named service_identity_bundle identity text g
  watch-kinds namespaces_response resp identity svc text s h = cc
  watch-kinds other_response resp identity svc text s h = cc
