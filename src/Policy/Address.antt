-- ===== src/Policy/Address.antt =====
-- Where the copies of a request go (src/traffic/policy/default.rs): the destination's base URL, from the
-- settings or from an available instance, and the address that is read from it. `load` is
-- `load_service_instances` of the resource cache followed by `list_instances(true)`; `compile` is
-- `regex::Regex::new`.
pub mod RoundTrip
use pole_client_rust.Common.{
  ℕ, ◌%◌, ◌/◌, String, str_eq, Bool, true, false, not, if◌then◌else◌, ◌==◌, ◌&&◌, ◌||◌, Option,
  none, some, List, [], ◌∷◌, ◌++◌, all, find, length, Table, lookup, concat, decimal, strip_prefix,
  trim_end_slashes, rsplit_colon, parse_u16, u32_mod,
}
use pole_client_rust.Core.Error.{
  Result, ok, err, api_invalid_argument, invalid_server_response, service_not_found, ok_or, ◌>>=◌,
}
use pole_client_rust.Core.Naming.{Instance, is_available}
use pole_client_rust.Core.Cache.{ResourceEventKey, instance_event}
use pole_client_rust.Match.Label.{MatchString, match_label_value}
use pole_client_rust.Policy.{MirrorDestination}

-- `HttpTarget` and `GrpcTarget`
pub record Target : Type 0 where
  pub host : String
  pub port : ℕ

unfoldable pub mirror_instance_base_url_with_protocol : Instance → String → Result String
mirror_instance_base_url_with_protocol i expected_protocol =
    if str_eq i.ip "" || i.port == 0
    then err invalid_server_response
    else let protocol = if str_eq i.protocol "" then expected_protocol else i.protocol in
      if not (str_eq protocol expected_protocol)
      then err api_invalid_argument
      else ok (concat (expected_protocol ∷ "://" ∷ i.ip ∷ ":" ∷ decimal i.port ∷ []))

unfoldable pub mirror_instance_base_url : Instance → Result String
unfolding mirror_instance_base_url_with_protocol
mirror_instance_base_url i = mirror_instance_base_url_with_protocol i "http"

-- The host and port: 80 without a colon.
abbrev pub host_and_port : String → Option (String × String) → Result (String × ℕ)
host_and_port address none = ok (address, 80)
host_and_port address (some (host, port)) =
    ok_or (parse_u16 port) api_invalid_argument >>= λ n. ok (host, n)

abbrev pub with_host : String × ℕ → Result Target
with_host (host, port) =
    if str_eq host "" then err api_invalid_argument else ok (record { host = host; port = port })

-- The part that both readers share.
unfoldable pub parse_address : String → Result Target
unfolding trim_end_slashes rsplit_colon parse_u16
parse_address rest =
    let address = trim_end_slashes rest in
    host_and_port address (rsplit_colon address) >>= with_host

unfoldable pub parse_http_base_url : String → Result Target
unfolding parse_address strip_prefix
parse_http_base_url base_url =
    ok_or (strip_prefix "http://" base_url) api_invalid_argument >>= parse_address

abbrev pub or_else {ℓ} : {A : Type ℓ} → Option A → Option A → Option A
or_else none b = b
or_else (some a) b = some a

unfoldable pub parse_grpc_base_url : String → Result Target
unfolding parse_address strip_prefix
parse_grpc_base_url base_url =
    ok_or (or_else (strip_prefix "grpc://" base_url) (strip_prefix "http://" base_url))
      api_invalid_argument
    >>= parse_address

-- `u32::to_be_bytes`
abbrev pub be_bytes : ℕ → List ℕ
be_bytes n = n / 16_777_216 % 256 ∷ n / 65_536 % 256 ∷ n / 256 % 256 ∷ n % 256 ∷ []

-- `GrpcMirrorBody::uncompressed_unary`
unfoldable pub uncompressed_unary : List ℕ → List ℕ
uncompressed_unary message = 0 ∷ (be_bytes (length message % u32_mod) ++ message)

module _ (compile : String → Option (String → Bool)) where
  abbrev has_label : Instance → String × MatchString → Bool
  has_label i (key, rule) = elim (lookup key i.metadata) [
    | none ↦ false
    | some actual ↦ match_label_value compile rule actual
  ]

  unfoldable pub mirror_instance_matches : Instance → MirrorDestination → Bool
  mirror_instance_matches i d = is_available i && all (has_label i) d.labels

  abbrev url_of : (Instance → Result String) → Option Instance → Result String
  url_of base_url none = err service_not_found
  url_of base_url (some i) = base_url i

  -- `resolve_destination_base_url` of both senders; without a cache no destination is found.
  unfoldable pub resolve_destination_base_url :
      (Instance → Result String)
      → Option (ResourceEventKey → Result (List Instance))
      → MirrorDestination
      → Result String
  unfolding mirror_instance_matches
  resolve_destination_base_url base_url none d = err service_not_found
  resolve_destination_base_url base_url (some load) d =
      load (record {
        namespace = d.namespace;
        event_type = instance_event;
        filter = ("service", d.service) ∷ [];
      })
      >>= λ instances. url_of base_url (find (λ i. mirror_instance_matches i d) instances)

  abbrev configured_or : Option String → Result String → Result String
  configured_or none resolved = resolved
  configured_or (some base_url) resolved = ok base_url

  -- The target of `HttpMirrorSender::send`.
  unfoldable pub http_target :
      Table String
      → Option (ResourceEventKey → Result (List Instance))
      → MirrorDestination
      → Result Target
  unfolding resolve_destination_base_url parse_http_base_url mirror_instance_base_url
  http_target base_urls cache d =
      let key = concat (d.namespace ∷ "#" ∷ d.service ∷ []) in
      configured_or (lookup key base_urls)
        (resolve_destination_base_url mirror_instance_base_url cache d)
      >>= parse_http_base_url

  -- The target of `GrpcMirrorSender::send`.
  unfoldable pub grpc_target :
      Table String
      → Option (ResourceEventKey → Result (List Instance))
      → MirrorDestination
      → Result Target
  unfolding resolve_destination_base_url parse_grpc_base_url mirror_instance_base_url_with_protocol
  grpc_target base_urls cache d =
      let key = concat (d.namespace ∷ "#" ∷ d.service ∷ []) in
      configured_or (lookup key base_urls) (
        resolve_destination_base_url (λ i. mirror_instance_base_url_with_protocol i "grpc") cache d)
      >>= parse_grpc_base_url
