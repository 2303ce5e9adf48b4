-- ===== src/Core/Error.antt =====
-- Errors and fallible calls (src/core/model/error.rs). An error is its code: its message is text for
-- the log, which no code reads.
use pole_client_rust.Common.{◌≡◌, refl, ◌⊎◌, inl, inr, Bool, true, false, Option, none, some}

pub data ErrorCode : Type 0 where
  success api_invalid_argument invalid_config plugin_error api_timeout invalid_state : ErrorCode
  server_user_error network_error circuit_break_error instance_info_error : ErrorCode
  instance_not_found invalid_rule route_rule_not_match invalid_response internal_error : ErrorCode
  service_not_found server_exception location_not_found location_mismatch : ErrorCode
  metadata_mismatch client_circuit_breaking connect_error server_error rpc_error : ErrorCode
  rpc_timeout invalid_server_response invalid_request unauthorized request_limit : ErrorCode
  cmdb_not_found unknown_server_error not_support rsa_key_generate_error : ErrorCode
  rsa_encrypt_error rsa_decrypt_error aes_key_generate_error aes_encrypt_error : ErrorCode
  aes_decrypt_error parameter_error config_crypto_error : ErrorCode

-- `Result<A, PoleError>`.
pub data Result {ℓ} (A : Type ℓ) : Type ℓ where
  ok : A → Result A
  err : ErrorCode → Result A

-- `if !test { return Err(e) }`.
abbrev pub guard : Bool → ErrorCode → Result (Unit {0})
guard false code = err code
guard true code = ok tt

-- The operator `?`.
infixl 5 ◌>>=◌ ◌>>◌
abbrev pub ◌>>=◌ {ℓ κ} : {A : Type ℓ} {B : Type κ} → Result A → (A → Result B) → Result B
err code >>= next = err code
ok a >>= next = next a

-- `option.ok_or(e)`.
abbrev pub ok_or {ℓ} : {A : Type ℓ} → Option A → ErrorCode → Result A
ok_or none e = err e
ok_or (some a) e = ok a

abbrev pub ◌>>◌ {ℓ} : {B : Type ℓ} → Result (Unit {0}) → Result B → Result B
done >> next = done >>= λ _. next

pub Result-cases {ℓ} :
    {A : Type ℓ} (r : Result A) → ((a : A) × (r ≡ ok a)) ⊎ ((e : ErrorCode) × (r ≡ err e))
Result-cases (ok a) = inl (a, refl)
Result-cases (err e) = inr (e, refl)
