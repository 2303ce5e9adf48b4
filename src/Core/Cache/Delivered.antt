-- ===== src/Core/Cache/Delivered.antt =====
-- Which answer is written to the file that a resource is loaded from
-- (src/plugins/cache/memory/failover.rs, src/plugins/connector/grpc/connector.rs).
use pole_client_rust.Common.{
  ◌≡◌, ◌≢◌, ◌↔◌, refl, sym, ap, ◌∙◌, subst, inl, inr, String, true, if◌then◌else◌, Option, none,
  some, concat,
}
use pole_client_rust.Core.Error.{internal_error}
use pole_client_rust.Core.Outcome.{value, failed, ◌>>=◌}
use pole_client_rust.Core.Naming.{ServiceKey}
use pole_client_rust.Core.Cache.{
  service, to_persist_file, DiscoverResponseType, ResourceEventKey, SpecService, unwrap, key_text,
}
use pole_client_rust.Core.Cache.Files.{file_owner, file_owner-to_persist_file}
use pole_client_rust.Core.Cache.Failover.{
  LocalCacheConfig, DiscoverResponse, service_file, load_file_of, failover_naming_load,
  save_file_of, save_naming_failover, watch_key, watch_key_of, discover_response_watch_key,
}
use pole_client_rust.Core.Cache.Texts.{HasNoHash, hash_inside}
use pole_client_rust.Core.Cache.Kinds.{
  IsLoaded, SavedAs, WatchedAs, load-IsLoaded, save-kinds, watch-kinds,
}
use pole_client_rust.Core.Cache.Paths.{
  watch_key-parts, same_watch_event, same_watch, same_service_file, other_file,
}

value_eq : {a b : String} → value a ≡ value b → a ≡ b
value_eq e = cc

module _ (conf : LocalCacheConfig) where
  -- The text of a key that has a file is the watch key of its service.
  key_text-watch :
      (key : ResourceEventKey) (path : String) (l : IsLoaded conf key.event_type key path)
      → key_text key ≡ value (watch_key key.event_type key.namespace l.name)
  unfolding key_text watch_key concat
  key_text-watch key path l = rw (l.kept.by_service key.filter, l.named) refl

  load-on :
      (key : ResourceEventKey)
      → conf.persist_enable ≡ true
      → failover_naming_load conf key ≡ load_file_of key.event_type conf key
  unfolding failover_naming_load
  load-on key on =
      ap (λ b. if b then load_file_of key.event_type conf key else failed internal_error) on

  save-on :
      (resp : DiscoverResponse) (svc : SpecService)
      → conf.persist_enable ≡ true
      → resp.service ≡ some svc
      → save_naming_failover conf resp ≡ save_file_of resp.type conf svc
  unfolding save_naming_failover
  save-on resp svc on has =
      ap
        (λ b.
          if b then (unwrap resp.service >>= λ x. save_file_of resp.type conf x) else value none)
        on
      ∙ ap (λ o. unwrap o >>= λ x. save_file_of resp.type conf x) has

  module _ (svc : SpecService) (key : ResourceEventKey) (path : String)
      (no_hash : HasNoHash svc.namespace) (key_no_hash : HasNoHash key.namespace)
      (l : IsLoaded conf key.event_type key path) where
    watched :
        (resp : DiscoverResponse) (identity : Option ServiceKey)
        → resp.service ≡ some svc
        → SavedAs conf resp.type svc path
        → (text : String) × (watch_key_of resp.type resp identity ≡ some text)
          × (key_text key ≡ value text)
    watched resp identity has (inl p) =
        absurd
          (other_file conf svc.namespace key.namespace l.name _ no_hash key_no_hash (sym p ∙ l.is))
    watched resp identity has (inr (e, known, p, w)) =
        let (namespace, name, file) =
          same_service_file conf svc.namespace svc.name key.namespace l.name e key.event_type
            no_hash key_no_hash (sym p ∙ l.is) in
        let event : e ≡ key.event_type =
          sym (file_owner-to_persist_file e known)
          ∙ ap file_owner file
          ∙ file_owner-to_persist_file key.event_type l.kept.owned in
        let same : watch_key key.event_type key.namespace l.name
            ≡ watch_key e svc.namespace svc.name =
          cc (event, namespace, name) in
        (
          watch_key e svc.namespace svc.name,
          w resp identity has,
          key_text-watch key path l ∙ ap value same,
        )

    written :
        (t : DiscoverResponseType) (text : String)
        → WatchedAs conf t svc text
        → watch_key key.event_type key.namespace l.name ≡ text
        → save_file_of t conf svc ≡ value (some path)
    written t text (inl n) q = absurd (
        hash_inside _ _ (
          subst HasNoHash (sym n ∙ sym q ∙ watch_key-parts key.event_type key.namespace l.name)
            no_hash))
    written t text (inr (inl (e, n, saved))) q =
        let (event, namespace, name) =
          same_watch key.event_type e key.namespace l.name svc.namespace svc.name key_no_hash
            no_hash (q ∙ n) in
        let same : service_file conf svc.namespace svc.name (to_persist_file e)
            ≡ service_file conf key.namespace l.name (to_persist_file key.event_type) =
          cc (event, namespace, name) in
        saved ∙ ap (λ f. value (some f)) (same ∙ sym l.is)
    written t text (inr (inr (e, unknown_file, owner, n))) q = absurd (
        l.kept.owned
          (ap to_persist_file (same_watch_event key.event_type e _ _ _ _ (q ∙ n)) ∙ unknown_file))

  -- Where persistence is on, no namespace has a `#`, and a resource other than a list of services is
  -- loaded from a file: an answer with a service is written to that file exactly if its watch key is the
  -- text of the resource's key.
  pub save_naming_failover-watched :
      (resp : DiscoverResponse) (identity : Option ServiceKey) (svc : SpecService)
      (key : ResourceEventKey) (path : String)
      → conf.persist_enable ≡ true
      → resp.service ≡ some svc
      → HasNoHash svc.namespace
      → HasNoHash key.namespace
      → key.event_type ≢ service
      → failover_naming_load conf key ≡ value path
      → (save_naming_failover conf resp ≡ value (some path)) ↔ (
          (text : String) × (discover_response_watch_key resp identity ≡ some text)
          × (key_text key ≡ value text))
  unfolding discover_response_watch_key
  save_naming_failover-watched resp identity svc key path on has hs hk other loaded =
      let l = load-IsLoaded conf key.event_type key path other (sym (load-on key on) ∙ loaded) in
      (
        λ saved.
            watched svc key path hs hk l resp identity has
              (save-kinds conf resp.type svc path (sym (save-on resp svc on has) ∙ saved)),
        λ w.
            save-on resp svc on has
            ∙ written svc key path hs hk l resp.type w.0
                (watch-kinds conf resp.type resp identity svc w.0 has w.1)
                (value_eq (sym (key_text-watch key path l) ∙ w.2)),
      )
