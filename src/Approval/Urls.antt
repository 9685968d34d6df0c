-- ===== src/Approval/Urls.antt =====
-- handler/key_request.go: validateWebURL. Parsing a URI and an address are the standard library's,
-- and parameters here.
use foundryvtt_rest_api_rela.Base.{
  Bool, Option, String, if◌then◌else◌, nat_eq, none, not, some, string_eq, ◌==◌, ◌||◌,
}

pub record Uri : Type 0 where
  pub scheme : String
  pub hostname : String

pub record Ip : Type 0 where
  pub is_loopback : Bool
  pub is_private : Bool
  pub is_link_local_unicast : Bool

pub record Net : Type 0 where
  pub parse_request_uri : String → Option Uri
  pub parse_ip : String → Option Ip

abbrev is_inner : Ip → Bool
is_inner ip = ip.is_loopback || ip.is_private || ip.is_link_local_unicast

abbrev inner_error : Option Ip → Option String
inner_error none = none
inner_error (some ip) =
    if is_inner ip then some "URL must not target a private or loopback address" else none

-- The error, or `none` for an address that may be used.
unfoldable pub validate_web_url : Net → String → Option String
validate_web_url net raw = elim (net.parse_request_uri raw) [
  | none ↦ some "invalid URL"
  | some u ↦
      if not (u.scheme == "http" || u.scheme == "https")
      then some "URL must use http or https scheme"
      else if u.hostname == ""
      then some "URL must have a non-empty host"
      else inner_error (net.parse_ip u.hostname)
]
