-- ===== src/Core/Traffic.antt =====
-- Where a value of the request's traffic is taken from (src/core/model/mod.rs).
use pole_client_rust.Common.{String, str_eq, if◌then◌else◌}

pub data ArgumentType : Type 0 where
  custom method path header cookie query caller_service caller_ip : ArgumentType

unfoldable pub parse_from_str : String → ArgumentType
parse_from_str s =
    if str_eq s "custom"
    then custom
    else if str_eq s "method"
    then method
    else if str_eq s "path"
    then path
    else if str_eq s "header"
    then header
    else if str_eq s "cookie"
    then cookie
    else if str_eq s "query"
    then query
    else if str_eq s "caller_service"
    then caller_service
    else if str_eq s "caller_ip"
    then caller_ip
    else custom
