-- ===== src/Core/Cache/Paths.antt =====
-- Paths of failover files and watch keys, taken apart (src/plugins/cache/memory/failover.rs,
-- src/plugins/connector/grpc/connector.rs).
use Prim.Native.String.{◌++◌}
use text.Mathlib.TextLemmas.{append-nil, append_cancel_left}
use pole_client_rust.Common.{◌≡◌, ◌≢◌, sym, ap, ◌∙◌, subst, String, concat, arith}
use pole_client_rust.Core.Cache.{EventType, event_name, to_persist_file}
use pole_client_rust.Core.Cache.Files.{to_persist_file_no_hash}
use pole_client_rust.Core.Cache.Failover.{LocalCacheConfig, services_file, service_file, watch_key}
use pole_client_rust.Core.Cache.Texts.{HasNoHash, split_hash, hash_inside, split_last}
use pole_client_rust.Core.Cache.Names.{event_named, event_named-event_name, event_name_no_hash}

pub watch_key-parts :
    (e : EventType) (n m : String) → watch_key e n m ≡ event_name e ++ ("#" ++ (n ++ ("#" ++ m)))
unfolding watch_key concat
watch_key-parts e n m = ap (λ x. event_name e ++ ("#" ++ (n ++ ("#" ++ x)))) (append-nil m)

same_event : (t u : EventType) → event_name t ≡ event_name u → t ≡ u
same_event t u e = sym (event_named-event_name t) ∙ ap event_named e ∙ event_named-event_name u

pub same_watch_event :
    (t u : EventType) (n m k l : String) → watch_key t n m ≡ watch_key u k l → t ≡ u
same_watch_event t u n m k l e =
    same_event t u
      (split_hash (event_name t) (event_name u) _ _ (event_name_no_hash t) (event_name_no_hash u)
        (sym (watch_key-parts t n m) ∙ e ∙ watch_key-parts u k l)).0

pub same_watch :
    (t u : EventType) (n m k l : String)
    → HasNoHash n
    → HasNoHash k
    → watch_key t n m ≡ watch_key u k l
    → (t ≡ u) × (n ≡ k) × (m ≡ l)
same_watch t u n m k l hn hk e =
    let (same_name, later) =
      split_hash (event_name t) (event_name u) (n ++ ("#" ++ m)) (k ++ ("#" ++ l))
        (event_name_no_hash t) (event_name_no_hash u)
        (sym (watch_key-parts t n m) ∙ e ∙ watch_key-parts u k l) in
    let (namespace, name) = split_hash n k m l hn hk later in
    (same_event t u same_name, namespace, name)

module _ (conf : LocalCacheConfig) where
  service_file-parts :
      (n m f : String)
      → service_file conf n m f ≡ conf.persist_dir ++ ("/svc#" ++ (n ++ ("#" ++ (m ++ ("#" ++ f)))))
  unfolding service_file concat
  service_file-parts n m f =
      ap (λ x. conf.persist_dir ++ ("/svc#" ++ (n ++ ("#" ++ (m ++ ("#" ++ x)))))) (append-nil f)

  services_file-parts :
      (n : String)
      → services_file conf n ≡ conf.persist_dir ++ ("/svc#" ++ (n ++ ("#" ++ "services.data")))
  unfolding services_file concat
  services_file-parts n =
      ap (λ x. conf.persist_dir ++ ("/svc#" ++ (n ++ ("#" ++ x)))) (append-nil "services.data")

  behind_dir :
      (x y : String)
      → conf.persist_dir ++ ("/svc#" ++ x) ≡ conf.persist_dir ++ ("/svc#" ++ y)
      → x ≡ y
  behind_dir x y e =
      append_cancel_left "/svc#" x y
        (append_cancel_left conf.persist_dir ("/svc#" ++ x) ("/svc#" ++ y) e)

  -- One file for two kinds of two services.
  pub same_service_file :
      (n m k l : String) (t u : EventType)
      → HasNoHash n
      → HasNoHash k
      → service_file conf n m (to_persist_file t) ≡ service_file conf k l (to_persist_file u)
      → (n ≡ k) × (m ≡ l) × (to_persist_file t ≡ to_persist_file u)
  same_service_file n m k l t u hn hk e =
      let parts = behind_dir _ _ (
        sym (service_file-parts n m (to_persist_file t))
        ∙ e
        ∙ service_file-parts k l (to_persist_file u)) in
      let (same, later) = split_hash n k _ _ hn hk parts in
      let (name, file) =
        split_last m l (to_persist_file t) (to_persist_file u) (to_persist_file_no_hash t)
          (to_persist_file_no_hash u) later in
      (same, name, file)

  pub other_file :
      (n k l f : String)
      → HasNoHash n
      → HasNoHash k
      → services_file conf n ≢ service_file conf k l f
  other_file n k l f hn hk e =
      let parts = behind_dir _ _ (sym (services_file-parts n) ∙ e ∙ service_file-parts k l f) in
      let (same, later) = split_hash n k "services.data" (l ++ ("#" ++ f)) hn hk parts in
      let plain : HasNoHash "services.data" = omega arith in
      hash_inside l f (subst HasNoHash later plain)
