-- ===== src/UrlGuard.antt =====
-- adapter/urlguard.py: the guard that every outbound URL and every proxy URL passes.
-- `ipaddress` is a parameter: which addresses it knows and what it says of them. A ValueError of
-- `urlparse` is no AdapterError, and passes through.
pub mod Guards
use image_adapter.Base.{
  String, Bool, true, false, not, ◌&&◌, ◌||◌, Option, none, some, List, [], ◌∷◌, ◌==◌,
  if◌then◌else◌, elem, is_empty,
}
use image_adapter.Text.{strip, lower, blank}
use image_adapter.Errors.{Result, ok, err, crash, channel_config_error}
use image_adapter.Settings.{Settings, upstream_host_set, upstream_proxy_host_set}
use image_adapter.Url.{ParsedUrl, urlparse, hostname}

-- What `ipaddress.ip_address(host)` reports of an address.
pub record IpAddress : Type 0 where
  pub private : Bool
  pub loopback : Bool
  pub link_local : Bool
  pub reserved : Bool
  pub multicast : Bool
  pub unspecified : Bool

abbrev pub allowed_schemes : List String
allowed_schemes = "http" ∷ "https" ∷ []

abbrev pub blocked_hosts : List String
blocked_hosts = "metadata.google.internal" ∷ "metadata.goog" ∷ "instance-data" ∷ []

abbrev pub socks_schemes : List String
socks_schemes = "socks" ∷ "socks4" ∷ "socks4a" ∷ "socks5" ∷ "socks5h" ∷ []

-- `none` is ip_address's ValueError
module _ (ip_address : String → Option IpAddress) where
  unfoldable pub is_private_ip : String → Bool
  is_private_ip host = elim (ip_address host) [
    | none ↦ false
    | some ip ↦
        ip.private || ip.loopback || ip.link_local || ip.reserved || ip.multicast || ip.unspecified
  ]

  -- `check_url` behind `urlparse`
  unfoldable pub check_parsed : String → ParsedUrl → Settings → String → Result String
  unfolding is_private_ip
  check_parsed url parsed settings header =
      let host = lower (hostname parsed) in
      if not (elem (lower parsed.scheme) allowed_schemes)
      then err (channel_config_error header)
      else if blank host
      then err (channel_config_error header)
      else if elem host blocked_hosts
      then err (channel_config_error header)
      else if not (is_empty (upstream_host_set settings))
          && not (elem host (upstream_host_set settings))
      then err (channel_config_error header)
      else if not settings.upstream_allow_private_network
          && (elem host ("localhost" ∷ "localhost.localdomain" ∷ []) || is_private_ip host)
      then err (channel_config_error header)
      else ok url

  unfoldable pub check_url : String → Settings → String → Result String
  unfolding check_parsed
  check_url raw settings header =
      if blank (strip raw) then err (channel_config_error header) else elim (urlparse (strip raw)) [
        | none ↦ crash
        | some parsed ↦ check_parsed (strip raw) parsed settings header
      ]

-- `check_proxy_url` behind `urlparse`
unfoldable pub check_parsed_proxy : String → ParsedUrl → Settings → String → Result String
check_parsed_proxy url parsed settings header =
    let host = lower (hostname parsed) in
    let allowed = upstream_proxy_host_set settings in
    if elem (lower parsed.scheme) socks_schemes
    then err (channel_config_error header)
    else if not (elem (lower parsed.scheme) allowed_schemes)
    then err (channel_config_error header)
    else if blank host
    then err (channel_config_error header)
    else if not (is_empty allowed) && not (elem "*" allowed) && not (elem host allowed)
    then err (channel_config_error header)
    else ok url

unfoldable pub check_proxy_url : String → Settings → String → Result String
unfolding check_parsed_proxy
check_proxy_url raw settings header =
    if blank (strip raw) then err (channel_config_error header) else elim (urlparse (strip raw)) [
      | none ↦ crash
      | some parsed ↦ check_parsed_proxy (strip raw) parsed settings header
    ]
