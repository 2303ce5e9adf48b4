-- ===== src/Policy/Address/RoundTrip.antt =====
-- The address of an instance is read back from its base URL (src/traffic/policy/default.rs).
use Prim.Native.String.{◌++◌}
use text.Mathlib.TextLemmas.{append_assoc, append-nil}
use pole_client_rust.Common.{
  ◌<◌, ◌≡◌, ◌≢◌, sym, ap, ◌∙◌, inl, inr, String, str_eq, false, not, if◌then◌else◌, ltb, ◌==◌, ◌||◌,
  some, concat, decimal, strip_prefix, Lacks, is_end, strip_prefix_self, trim-append, rsplit-append,
  colon_front, AreDigits-Lacks, decimal-AreDigits, parse_u16-decimal, u32_mod, Bool-cases, arith,
}
use pole_client_rust.Core.Error.{Result, ok, err, api_invalid_argument}
use pole_client_rust.Core.Naming.{Instance}
use pole_client_rust.Policy.Address.{
  Target, mirror_instance_base_url_with_protocol, parse_address, parse_http_base_url,
  parse_grpc_base_url,
}

ok_path : {a b : String} → ok a ≡ ok b → a ≡ b
ok_path e = cc

-- What a base URL is made of.
base_url-parts :
    (i : Instance) (protocol url : String)
    → mirror_instance_base_url_with_protocol i protocol ≡ ok url
    → (str_eq i.ip "" ≡ false)
      × (i.port ≢ 0)
      × (url ≡ (protocol ++ "://") ++ (i.ip ++ (":" ++ decimal i.port)))
unfolding mirror_instance_base_url_with_protocol concat
base_url-parts i protocol url h = elim (Bool-cases (str_eq i.ip "" || i.port == 0)) [
  | inl t ↦ cc (rw t at h)
  | inr f ↦
      elim (Bool-cases
        (not (str_eq (if str_eq i.protocol "" then protocol else i.protocol) protocol))) [
          | inl t ↦ cc (rw (f, t) at h)
          | inr g ↦ (
            ground arith,
            ground arith,
            sym (ok_path (rw (f, g) at h))
                ∙ rw (append-nil (decimal i.port))
                    (sym (append_assoc protocol "://" (i.ip ++ (":" ++ decimal i.port)))),
          )
        ]
]

-- The address that is read: the instance's, if its port has 16 bits.
abbrev pub address_or_error : Instance → Result Target
address_or_error i =
    if ltb i.port 65_536
    then ok (record { host = i.ip; port = i.port })
    else err api_invalid_argument

parse_address-instance :
    (i : Instance)
    → str_eq i.ip "" ≡ false
    → i.port ≢ 0
    → i.port < u32_mod
    → parse_address (i.ip ++ (":" ++ decimal i.port)) ≡ address_or_error i
unfolding parse_address
parse_address-instance i named port range =
    let number = decimal-AreDigits i.port in
    let no_slash : Lacks 47 (":" ++ decimal i.port) =
      rw (colon_front (decimal i.port))
        ((omega arith, AreDigits-Lacks 47 (decimal i.port) (inl (omega arith)) number)) in
    let not_end : is_end (":" ++ decimal i.port) ≡ false = rw (colon_front (decimal i.port)) in
    let whole = trim-append i.ip (":" ++ decimal i.port) no_slash not_end in
    let parts =
      rsplit-append i.ip (decimal i.port)
        (AreDigits-Lacks 58 (decimal i.port) (inr (omega arith)) number) in
    let read = parse_u16-decimal i.port port range in
    elim (Bool-cases (ltb i.port 65_536)) [
      | inl fits ↦ rw (whole, parts, read, fits, named)
      | inr large ↦ rw (whole, parts, read, large)
    ]

strip_http : (x : String) → strip_prefix "http://" (("http" ++ "://") ++ x) ≡ some x
strip_http x = strip_prefix_self "http://" x

strip_grpc : (x : String) → strip_prefix "grpc://" (("grpc" ++ "://") ++ x) ≡ some x
strip_grpc x = strip_prefix_self "grpc://" x

parse_http-stripped :
    (url rest : String)
    → strip_prefix "http://" url ≡ some rest
    → parse_http_base_url url ≡ parse_address rest
unfolding parse_http_base_url
parse_http-stripped url rest h = rw h

parse_grpc-stripped :
    (url rest : String)
    → strip_prefix "grpc://" url ≡ some rest
    → parse_grpc_base_url url ≡ parse_address rest
unfolding parse_grpc_base_url
parse_grpc-stripped url rest h = rw h

-- The reader of base URLs gives back the address that a base URL was written for, for both protocols
-- and any host; a port of more than 16 bits, which an instance can have, is refused as an invalid
-- argument. The port is one of 32 bits.
pub base_url_round_trip :
    (i : Instance) (url : String)
    → i.port < u32_mod
    → (mirror_instance_base_url_with_protocol i "http" ≡ ok url
        → parse_http_base_url url ≡ address_or_error i)
      × (mirror_instance_base_url_with_protocol i "grpc" ≡ ok url
          → parse_grpc_base_url url ≡ address_or_error i)
base_url_round_trip i url range = (
  λ h.
      let (named, port, written) = base_url-parts i "http" url h in
      let address = i.ip ++ (":" ++ decimal i.port) in
      parse_http-stripped url address (ap (strip_prefix "http://") written ∙ strip_http address)
      ∙ parse_address-instance i named port range,
  λ h.
      let (named, port, written) = base_url-parts i "grpc" url h in
      let address = i.ip ++ (":" ++ decimal i.port) in
      parse_grpc-stripped url address (ap (strip_prefix "grpc://") written ∙ strip_grpc address)
      ∙ parse_address-instance i named port range,
)
