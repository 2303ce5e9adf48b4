-- ===== src/Core/Cache/Keys.antt =====
-- Which resources share a key's text (src/core/model/cache.rs).
use Prim.Native.String.{◌++◌}
use text.Mathlib.TextLemmas.{append-nil}
use pole_client_rust.Common.{
  ◌≡◌, refl, sym, ap, ◌∙◌, String, Option, none, some, List, [], ◌∷◌, Table, lookup, concat,
}
use pole_client_rust.Core.Outcome.{Outcome, value, failed, panicked, ◌>>=◌}
use pole_client_rust.Core.Cache.{
  EventType, unknown, instance_event, router_rule, circuit_breaker_rule, rate_limit_rule, service,
  fault_detect_rule, service_contract, lane_rule, lossless_rule, traffic_security_rule,
  traffic_mirror_rule, traffic_mock_rule, service_identity, service_identity_bundle, namespaces,
  config_file, config_group, config_groups, event_name, ResourceEventKey, unwrap, resource_name,
  key_text,
}
use pole_client_rust.Core.Cache.Texts.{HasNoHash, split_hash}
use pole_client_rust.Core.Cache.Names.{event_named, event_named-event_name, event_name_no_hash}

value_eq : {a b : String} → value a ≡ value b → a ≡ b
value_eq e = cc

-- The key's text in one piece.
pub key_text-name :
    (k : ResourceEventKey) (text : String)
    → key_text k ≡ value text
    → (name : String) × (resource_name k.event_type k.filter ≡ value name)
      × (text ≡ event_name k.event_type ++ ("#" ++ (k.namespace ++ ("#" ++ name))))
unfolding key_text concat
key_text-name k text h = found (resource_name k.event_type k.filter) refl h
  where
    found :
        (o : Outcome String)
        → resource_name k.event_type k.filter ≡ o
        → (o >>= λ name.
            value (concat (event_name k.event_type ∷ "#" ∷ k.namespace ∷ "#" ∷ name ∷ [])))
          ≡ value text
        → (name : String) × (resource_name k.event_type k.filter ≡ value name)
          × (text ≡ event_name k.event_type ++ ("#" ++ (k.namespace ++ ("#" ++ name))))
    found (value name) e g = (name, e, sym (value_eq (rw (append-nil name) at g)))
    found (failed c) e g = cc
    found panicked e g = cc

-- What a key names beside its kind and namespace: a group and a file, a group, or a service.
abbrev pub resource_parts : EventType → Table String → List (Option String)
resource_parts config_file filter = lookup "group" filter ∷ lookup "file" filter ∷ []
resource_parts config_group filter = lookup "group" filter ∷ []
resource_parts event filter = lookup "service" filter ∷ []

abbrev pub IsWithoutHash : Option String → Type 0
IsWithoutHash none = Unit {0}
IsWithoutHash (some s) = HasNoHash s

some_text : (o : Option String) (text : String) → unwrap o ≡ value text → o ≡ some text
some_text none text h = cc
some_text (some s) text h = ap some (value_eq h)

-- The parts of a key whose last part is one text.
one_part :
    (o p : Option String) (text : String)
    → unwrap o ≡ value text
    → unwrap p ≡ value text
    → ◌≡◌ {A = List (Option String)} (o ∷ []) (p ∷ [])
one_part o p text h k = ap (λ x. x ∷ []) (some_text o text h ∙ sym (some_text p text k))

abbrev joined : Option String → Option String → Outcome String
joined group file = unwrap group >>= λ g. unwrap file >>= λ f. value (g ++ ("#" ++ (f ++ "")))

joined_value :
    {a b c d : String}
    → a ++ ("#" ++ (b ++ "")) ≡ c ++ ("#" ++ (d ++ ""))
    → HasNoHash a
    → HasNoHash c
    → (a ≡ c) × (b ≡ d)
joined_value {a} {b} {c} {d} e h k =
    let (p, q) = split_hash a c (b ++ "") (d ++ "") h k e in
    (p, sym (append-nil b) ∙ q ∙ append-nil d)

two_parts :
    (g f h k : Option String) (text : String)
    → IsWithoutHash g
    → IsWithoutHash h
    → joined g f ≡ value text
    → joined h k ≡ value text
    → ◌≡◌ {A = List (Option String)} (g ∷ f ∷ []) (h ∷ k ∷ [])
two_parts none f h k text wg wh p q = cc
two_parts (some g) none h k text wg wh p q = cc
two_parts (some g) (some f) none k text wg wh p q = cc
two_parts (some g) (some f) (some h) none text wg wh p q = cc
two_parts (some g) (some f) (some h) (some k) text wg wh p q =
    let (x, y) = joined_value (value_eq (p ∙ sym q)) wg wh in cc (x, y)

same_parts :
    (t : EventType) (f g : Table String) (text : String)
    → IsWithoutHash (lookup "group" f)
    → IsWithoutHash (lookup "group" g)
    → resource_name t f ≡ value text
    → resource_name t g ≡ value text
    → resource_parts t f ≡ resource_parts t g
unfolding concat
same_parts config_file f g text wf wg p q =
    two_parts (lookup "group" f) (lookup "file" f) (lookup "group" g) (lookup "file" g) text wf wg p
      q
same_parts config_group f g text wf wg p q = one_part (lookup "group" f) (lookup "group" g) text p q
same_parts unknown f g text wf wg p q = one_part (lookup "service" f) (lookup "service" g) text p q
same_parts instance_event f g text wf wg p q =
    one_part (lookup "service" f) (lookup "service" g) text p q
same_parts router_rule f g text wf wg p q =
    one_part (lookup "service" f) (lookup "service" g) text p q
same_parts circuit_breaker_rule f g text wf wg p q =
    one_part (lookup "service" f) (lookup "service" g) text p q
same_parts rate_limit_rule f g text wf wg p q =
    one_part (lookup "service" f) (lookup "service" g) text p q
same_parts service f g text wf wg p q = one_part (lookup "service" f) (lookup "service" g) text p q
same_parts fault_detect_rule f g text wf wg p q =
    one_part (lookup "service" f) (lookup "service" g) text p q
same_parts service_contract f g text wf wg p q =
    one_part (lookup "service" f) (lookup "service" g) text p q
same_parts lane_rule f g text wf wg p q =
    one_part (lookup "service" f) (lookup "service" g) text p q
same_parts lossless_rule f g text wf wg p q =
    one_part (lookup "service" f) (lookup "service" g) text p q
same_parts traffic_security_rule f g text wf wg p q =
    one_part (lookup "service" f) (lookup "service" g) text p q
same_parts traffic_mirror_rule f g text wf wg p q =
    one_part (lookup "service" f) (lookup "service" g) text p q
same_parts traffic_mock_rule f g text wf wg p q =
    one_part (lookup "service" f) (lookup "service" g) text p q
same_parts service_identity f g text wf wg p q =
    one_part (lookup "service" f) (lookup "service" g) text p q
same_parts service_identity_bundle f g text wf wg p q =
    one_part (lookup "service" f) (lookup "service" g) text p q
same_parts namespaces f g text wf wg p q =
    one_part (lookup "service" f) (lookup "service" g) text p q
same_parts config_groups f g text wf wg p q =
    one_part (lookup "service" f) (lookup "service" g) text p q

-- Two keys with one text name the same resource, if no namespace and no group has a `#`: they are of the
-- same kind and namespace, and name the same service, or for configuration the same group and file.
pub key_text_injective :
    (k l : ResourceEventKey) (text : String)
    → HasNoHash k.namespace
    → HasNoHash l.namespace
    → IsWithoutHash (lookup "group" k.filter)
    → IsWithoutHash (lookup "group" l.filter)
    → key_text k ≡ value text
    → key_text l ≡ value text
    → (k.event_type ≡ l.event_type)
      × (k.namespace ≡ l.namespace)
      × (resource_parts k.event_type k.filter ≡ resource_parts l.event_type l.filter)
key_text_injective k l text hk hl gk gl ek el =
    let (m, em, tm) = key_text-name k text ek in
    let (n, en, tn) = key_text-name l text el in
    let (same_name, behind) =
      split_hash (event_name k.event_type) (event_name l.event_type) (k.namespace ++ ("#" ++ m))
        (l.namespace ++ ("#" ++ n)) (event_name_no_hash k.event_type)
        (event_name_no_hash l.event_type) (sym tm ∙ tn) in
    let (same_namespace, same_resource) = split_hash k.namespace l.namespace m n hk hl behind in
    let same_kind =
      sym (event_named-event_name k.event_type)
      ∙ ap event_named same_name
      ∙ event_named-event_name l.event_type in
    (
      same_kind,
      same_namespace,
      same_parts k.event_type k.filter l.filter m gk gl em
            (ap (λ t. resource_name t l.filter) same_kind ∙ en ∙ ap value (sym same_resource))
          ∙ ap (λ t. resource_parts t l.filter) same_kind,
    )
