-- ===== src/Core/Naming.antt =====
-- Services and their instances (src/core/model/naming.rs).
use pole_client_rust.Common.{
  ℕ, ◌+◌, ◌%◌, String, Bool, true, false, if◌then◌else◌, not, ◌==◌, List, [], ◌∷◌, Table, u64_mod,
  concat,
}

pub record ServiceKey : Type 0 where
  pub namespace : String
  pub name : String

pub record ServiceInfo : Type 0 where
  pub id : String
  pub namespace : String
  pub name : String
  pub metadata : Table String
  pub revision : String

pub record Location : Type 0 where
  pub region : String
  pub zone : String
  pub campus : String

pub record Instance : Type 0 where
  pub id : String
  pub namespace : String
  pub service : String
  pub ip : String
  pub port : ℕ
  pub vpc_id : String
  pub version : String
  pub protocol : String
  pub health : Bool
  pub isolated : Bool
  pub weight : ℕ
  pub priority : ℕ
  pub metadata : Table String
  pub location : Location
  pub revision : String

unfoldable pub is_available : Instance → Bool
is_available i =
    if i.weight == 0
    then false
    else if not i.health
    then false
    else if i.isolated
    then false
    else true

pub record ServiceInstances : Type 0 where
  pub service : ServiceInfo
  pub instances : List Instance
  pub total_weight : ℕ

-- The loop `total_weight += val.weight as u64`, from an accumulator.
unfoldable pub add_weights : ℕ → List Instance → ℕ
add_weights acc [] = acc
add_weights acc (i ∷ rest) = add_weights ((acc + i.weight) % u64_mod) rest

unfoldable pub new_instances : ServiceInfo → List Instance → ServiceInstances
new_instances svc all_ins = record {
  service = svc;
  instances = all_ins;
  total_weight = add_weights 0 all_ins;
}

unfoldable pub get_cache_key : ServiceInstances → String
get_cache_key s =
    concat ("Instance-namespace=" ∷ s.service.namespace ∷ "-service=" ∷ s.service.name ∷ [])
