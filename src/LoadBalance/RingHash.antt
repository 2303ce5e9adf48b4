-- ===== src/LoadBalance/RingHash.antt =====
-- The ring of hashes (src/plugins/loadbalance/ringhash/ringhash.rs). `node_hash` is the hash of an
-- instance's id with the number of a replica, `key_hash` that of a request's key: those of
-- `DefaultHasher`. The `BTreeMap` of a ring is a list in the order of its keys.
pub mod Panics
use pole_client_rust.Common.{
  ℕ, zero, suc, String, str_eq, Bool, not, if◌then◌else◌, ◌==◌, leb, ltb, Option, none, some, List,
  [], ◌∷◌, keep, Table, lookup, insert,
}
use pole_client_rust.Core.Outcome.{Outcome, value, panicked}
use pole_client_rust.Core.Naming.{Instance, ServiceInstances, get_cache_key}

abbrev pub Nodes : Type 0
Nodes = List (ℕ × Instance)

pub record RingHash : Type 0 where
  pub nodes : Nodes
  pub replicas : ℕ
  pub revision : String

-- `BTreeMap::insert`
unfoldable pub insert_node : ℕ → Instance → Nodes → Nodes
insert_node k i [] = (k, i) ∷ []
insert_node k i ((j, n) ∷ rest) =
    let later = insert_node k i rest in
    if k == j then (k, i) ∷ rest else if ltb k j then (k, i) ∷ (j, n) ∷ rest else (j, n) ∷ later

unfoldable pub last : Nodes → Option Instance
last [] = none
last ((k, i) ∷ []) = some i
last (a ∷ b ∷ rest) = last (b ∷ rest)

-- The last node up to the hash.
unfoldable pub get_node : ℕ → Nodes → Option Instance
unfolding last
get_node h nodes = last (keep (λ n. leb n.0 h) nodes)

abbrev pub default_replicas : ℕ
default_replicas = 5

abbrev pub chosen_node : Option Instance → Outcome Instance
chosen_node none = panicked
chosen_node (some i) = value i

module _ (node_hash : String → ℕ → ℕ) where
  -- The loop of `add_node`: so many replicas are left, from the given number on.
  unfoldable pub add_replicas : ℕ → ℕ → Instance → Nodes → Nodes
  unfolding insert_node
  add_replicas zero n i nodes = nodes
  add_replicas (suc left) n i nodes =
      add_replicas left (suc n) i (insert_node (node_hash i.id n) i nodes)

  unfoldable pub add_nodes : ℕ → List Instance → Nodes → Nodes
  unfolding add_replicas
  add_nodes replicas [] nodes = nodes
  add_nodes replicas (i ∷ rest) nodes = add_nodes replicas rest (add_replicas replicas 0 i nodes)

  -- The ring of a service: a new one, or the cached one, filled again if the revision changed.
  abbrev pub refreshed : Option RingHash → ServiceInstances → RingHash
  refreshed none s = record {
    nodes = add_nodes default_replicas s.instances [];
    replicas = default_replicas;
    revision = s.service.revision;
  }
  refreshed (some ring) s =
      if not (str_eq ring.revision s.service.revision)
      then record ring {
        nodes = add_nodes ring.replicas s.instances [];
        revision = s.service.revision;
      }
      else ring

  unfoldable pub choose_ring :
      (String → ℕ) → String → ServiceInstances → Table RingHash → Table RingHash × Outcome Instance
  unfolding add_nodes get_node
  choose_ring key_hash hash_key s cache =
      let ring = refreshed (lookup (get_cache_key s) cache) s in
      (insert (get_cache_key s) ring cache, chosen_node (get_node (key_hash hash_key) ring.nodes))
