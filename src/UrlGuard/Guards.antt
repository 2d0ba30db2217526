-- ===== src/UrlGuard/Guards.antt =====
-- What the guards let through.
use image_adapter.Base.{
  String, true, false, ◌≡◌, ◌⊎◌, Option, some, [], ◌∷◌, arith, elem, is_empty, Option-cases, inl,
  inr, Bool-cases,
}
use image_adapter.Text.{strip, lower, blank}
use image_adapter.Errors.{ok}
use image_adapter.Settings.{Settings, upstream_host_set, upstream_proxy_host_set}
use image_adapter.Url.{ParsedUrl, urlparse, hostname}
use image_adapter.UrlGuard.{
  IpAddress, allowed_schemes, blocked_hosts, is_private_ip, check_parsed, check_url,
  check_proxy_url,
}

-- What a URL is that the adapter may open a socket for.
pub record IsOutbound (ip_address : String → Option IpAddress) (settings : Settings) (url : String)
    : Type 0 where
  pub parsed : ParsedUrl
  pub parses : urlparse url ≡ some parsed
  pub scheme : elem (lower parsed.scheme) allowed_schemes ≡ true
  pub host : blank (lower (hostname parsed)) ≡ false
  pub unblocked : elem (lower (hostname parsed)) blocked_hosts ≡ false
  pub listed :
      (is_empty (upstream_host_set settings) ≡ true)
      ⊎ (elem (lower (hostname parsed)) (upstream_host_set settings) ≡ true)
  pub public :
      (settings.upstream_allow_private_network ≡ true)
      ⊎ ((elem (lower (hostname parsed)) ("localhost" ∷ "localhost.localdomain" ∷ []) ≡ false)
          × (is_private_ip ip_address (lower (hostname parsed)) ≡ false))

module _ (ip_address : String → Option IpAddress) (settings : Settings) where
  check_parsed-IsOutbound :
      (url header out : String) (parsed : ParsedUrl)
      → urlparse url ≡ some parsed
      → check_parsed ip_address url parsed settings header ≡ ok out
      → (out ≡ url) × IsOutbound ip_address settings url
  unfolding check_parsed
  check_parsed-IsOutbound url header out parsed p h = (
    ground arith,
    record {
      parsed = parsed;
      parses = p;
      scheme = ground arith;
      host = ground arith;
      unblocked = ground arith;
      listed = ground arith;
      public = ground arith;
    },
  )

  -- A URL that `check_url` returns is the stripped text, has an http or https scheme and a host,
  -- which is no metadata host, is on the allowlist if there is one, and is neither private nor
  -- loopback unless the deployment allows private networks.
  pub check_url-IsOutbound :
      (raw header url : String)
      → check_url ip_address raw settings header ≡ ok url
      → (url ≡ strip raw) × IsOutbound ip_address settings (strip raw)
  unfolding check_url
  check_url-IsOutbound raw header url h = elim (Bool-cases (blank (strip raw))) [
    | inl empty ↦ absurd (ground arith)
    | inr given ↦ elim (Option-cases (urlparse (strip raw))) [
      | inl fails ↦ absurd (ground arith)
      | inr (parsed, p) ↦
          check_parsed-IsOutbound (strip raw) header url parsed p (rw (given, p) at h)
    ]
  ]

-- What `check_proxy_url` returns is the stripped text, with an http or https scheme and a host; if
-- the deployment names its proxies and has no `*` among them, the host is one of those.
pub check_proxy_url-listed :
    (raw header url : String) (settings : Settings)
    → check_proxy_url raw settings header ≡ ok url
    → (parsed : ParsedUrl) × (url ≡ strip raw)
      × (urlparse url ≡ some parsed)
      × (elem (lower parsed.scheme) allowed_schemes ≡ true)
      × (blank (lower (hostname parsed)) ≡ false)
      × ((is_empty (upstream_proxy_host_set settings) ≡ true)
          ⊎ ((elem "*" (upstream_proxy_host_set settings) ≡ true)
              ⊎ (elem (lower (hostname parsed)) (upstream_proxy_host_set settings) ≡ true)))
unfolding check_proxy_url
check_proxy_url-listed raw header url settings h = elim (Bool-cases (blank (strip raw))) [
  | inl empty ↦ absurd (ground arith)
  | inr given ↦ elim (Option-cases (urlparse (strip raw))) [
    | inl fails ↦ absurd (ground arith)
    | inr (parsed, p) ↦
        let checked = rw (given, p) at h in
        let same : url ≡ strip raw = ground arith in
        (parsed, same, rw same p, ground arith, ground arith, ground arith)
  ]
]

-- With no proxy list configured, every http or https URL with a host is accepted as a proxy,
-- loopback and private hosts included.
check_proxy_url_unlisted :
    (raw header : String) (settings : Settings) (parsed : ParsedUrl)
    → upstream_proxy_host_set settings ≡ []
    → blank (strip raw) ≡ false
    → urlparse (strip raw) ≡ some parsed
    → (lower parsed.scheme ≡ "http") ⊎ (lower parsed.scheme ≡ "https")
    → blank (lower (hostname parsed)) ≡ false
    → check_proxy_url raw settings header ≡ ok (strip raw)
unfolding check_proxy_url
check_proxy_url_unlisted raw header settings parsed empty given p (inl http) host =
    rw (given, p, http, host, empty)
check_proxy_url_unlisted raw header settings parsed empty given p (inr https) host =
    rw (given, p, https, host, empty)
