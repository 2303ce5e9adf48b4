-- ===== src/LoadBalance/RingHash/Panics.antt =====
-- When the choice by a ring panics (src/plugins/loadbalance/ringhash/ringhash.rs).
use pole_client_rust.Common.{
  ℕ, zero, suc, ◌≡◌, ◌↔◌, refl, sym, ◌∙◌, String, Bool, true, false, leb, ltb, ◌&&◌, Option, none,
  some, List, [], ◌∷◌, all, keep, lookup, Bool-cases, inl, inr, arith,
}
use pole_client_rust.Core.Outcome.{panicked}
use pole_client_rust.Core.Naming.{Instance, ServiceInstances}
use pole_client_rust.LoadBalance.RingHash.{
  Nodes, insert_node, last, get_node, chosen_node, add_replicas, add_nodes, choose_ring,
}

-- Every node lies behind the hash.
abbrev pub all_behind : ℕ → Nodes → Bool
all_behind h nodes = all (λ n. ltb h n.0) nodes

insert_node-behind :
    (h k : ℕ) (i : Instance) (nodes : Nodes)
    → all_behind h (insert_node k i nodes) ≡ (ltb h k && all_behind h nodes)
unfolding insert_node
insert_node-behind h k i [] = ground arith
insert_node-behind h k i ((j, n) ∷ nodes) = ground (arith, insert_node-behind h k i nodes)

is_none : Option Instance → Bool
is_none none = true
is_none (some i) = false

last-some : (a : ℕ × Instance) (nodes : Nodes) → is_none (last (a ∷ nodes)) ≡ false
unfolding last is_none
last-some a [] = refl
last-some a (b ∷ nodes) = last-some b nodes

get_node-none : (h : ℕ) (nodes : Nodes) → is_none (get_node h nodes) ≡ all_behind h nodes
unfolding get_node last is_none
get_node-none h [] = refl
get_node-none h ((k, i) ∷ nodes) = elim (Bool-cases (leb k h)) [
  | inl t ↦
      let near : ltb h k ≡ false = ground arith in
      rw (t, near) (last-some (k, i) (keep (λ n. leb n.0 h) nodes))
  | inr f ↦ let far : ltb h k ≡ true = ground arith in rw (f, far) (get_node-none h nodes)
]

module _ (node_hash : String → ℕ → ℕ) where
  -- The replicas of an instance, so many from the given number on, all lie behind the hash.
  abbrev pub replicas_behind : ℕ → ℕ → ℕ → Instance → Bool
  replicas_behind h zero n i = true
  replicas_behind h (suc left) n i = ltb h (node_hash i.id n) && replicas_behind h left (suc n) i

  add_replicas-behind :
      (h left n : ℕ) (i : Instance) (nodes : Nodes)
      → all_behind h (add_replicas node_hash left n i nodes)
        ≡ (replicas_behind h left n i && all_behind h nodes)
  unfolding add_replicas
  add_replicas-behind h zero n i nodes = refl
  add_replicas-behind h (suc left) n i nodes =
      let rest = add_replicas-behind h left (suc n) i (insert_node (node_hash i.id n) i nodes) in
      let one = insert_node-behind h (node_hash i.id n) i nodes in rest ∙ ground (arith, one)

  add_nodes-behind :
      (h replicas : ℕ) (is : List Instance) (nodes : Nodes)
      → all_behind h (add_nodes node_hash replicas is nodes)
        ≡ (all (replicas_behind h replicas 0) is && all_behind h nodes)
  unfolding add_nodes
  add_nodes-behind h replicas [] nodes = refl
  add_nodes-behind h replicas (i ∷ is) nodes =
      add_nodes-behind h replicas is (add_replicas node_hash replicas 0 i nodes)
      ∙ ground (arith, add_replicas-behind h replicas 0 i nodes)

chosen_node-panicked :
    (o : Option Instance) (b : Bool) → is_none o ≡ b → (chosen_node o ≡ panicked) ↔ (b ≡ true)
unfolding is_none
chosen_node-panicked none b h = ((λ e. sym h), (λ e. refl))
chosen_node-panicked (some i) b h = ((λ e. cc e), (λ e. cc (h, e)))

-- The first choice for a service panics exactly when all five replicas of each of its instances have
-- a hash above that of the request's key, which for a service without instances is always: the ring
-- does not begin anew behind its last node.
pub choose_ring-panicked :
    (node_hash : String → ℕ → ℕ) (key_hash : String → ℕ) (key : String) (s : ServiceInstances)
    → ((choose_ring node_hash key_hash key s []).1 ≡ panicked)
      ↔ (all (replicas_behind node_hash (key_hash key) 5 0) s.instances ≡ true)
unfolding choose_ring lookup
choose_ring-panicked node_hash key_hash key s = chosen_node-panicked _ _ (
    get_node-none (key_hash key) (add_nodes node_hash 5 s.instances [])
    ∙ add_nodes-behind node_hash (key_hash key) 5 s.instances []
    ∙ ground arith)
