-- ===== src/Channel/Headers.antt =====
-- What a parsed channel specification takes from each header.
use image_adapter.Base.{
  String, true, false, ◌≡◌, ◌⊎◌, refl, Option, elem, is_empty, eqb, ltb, ◌==◌, Bool-cases, inl, inr,
  some,
}
use mathlib.Core.Path.{subst}
use image_adapter.Text.{strip, lower, blank}
use image_adapter.Errors.{ok-injective, ok, channel_config_error, >>=-inversion, refuse_if-eq-ok}
use image_adapter.Float.{Float}
use image_adapter.Settings.{Settings, upstream_proxy_host_set}
use image_adapter.Url.{ParsedUrl, urlparse, hostname}
use image_adapter.UrlGuard.{IpAddress, allowed_schemes, check_url, check_proxy_url}
use image_adapter.UrlGuard.Guards.{check_url-IsOutbound, check_proxy_url-listed}
use image_adapter.ProxyPlan.{ProxyPlan, direct, parse_hosts}
use image_adapter.ModelMap
use image_adapter.StageSpec
use image_adapter.Value.{Value}
use image_adapter.Channel.{
  ChannelSpec, header_or_empty, stripped_header, inline_of, sha_of, upstream_key, parse_method,
  plan_for_proxy, parse_proxy, provided, script_headers, auth_header, async_header, parse_options,
  parse_channel,
}

-- A proxy that a text names: an http or https URL with a host, which is one of those that the
-- deployment names, if it names any and no `*` among them; and the hosts that bypass it.
pub record IsProxy (settings : Settings) (raw : String) (plan : ProxyPlan) : Type 0 where
  pub parsed : ParsedUrl
  pub url : plan.url ≡ strip raw
  pub parses : urlparse plan.url ≡ some parsed
  pub scheme : elem (lower parsed.scheme) allowed_schemes ≡ true
  pub host : blank (lower (hostname parsed)) ≡ false
  pub listed :
      (is_empty (upstream_proxy_host_set settings) ≡ true)
      ⊎ ((elem "*" (upstream_proxy_host_set settings) ≡ true)
          ⊎ (elem (lower (hostname parsed)) (upstream_proxy_host_set settings) ≡ true))
  pub bypass :
      parse_hosts settings.upstream_proxy_bypass_hosts "UPSTREAM_PROXY_BYPASS_HOSTS"
      ≡ ok plan.bypass

plan_for_proxy-IsProxy :
    (raw : String) (settings : Settings) (header : String) (plan : ProxyPlan)
    → plan_for_proxy raw settings header ≡ ok plan
    → IsProxy settings raw plan
unfolding plan_for_proxy
plan_for_proxy-IsProxy raw settings header plan h =
    >>=-inversion (check_proxy_url raw settings header) _ h λ url checked h1.
      >>=-inversion (parse_hosts settings.upstream_proxy_bypass_hosts "UPSTREAM_PROXY_BYPASS_HOSTS")
        _ h1
        λ bypass hosts h2.
          let (parsed, same, parses, scheme, host, listed) =
            check_proxy_url-listed raw header url settings checked in
          subst (IsProxy settings raw) (ok-injective h2) (record {
            parsed = parsed;
            url = same;
            parses = parses;
            scheme = scheme;
            host = host;
            listed = listed;
            bypass = hosts;
          })

module _ (headers : String → Option String) (settings : Settings) where
  abbrev pub proxy_header : String
  proxy_header = strip (header_or_empty headers "x-upstream-proxy")

  abbrev pub default_proxy : String
  default_proxy = strip settings.upstream_proxy_default

  -- The proxy of a request: that of its header, or the deployment's default, or none.
  pub data Proxied : ProxyPlan → Type 0 where
    opted_out : (lower proxy_header == "none") ≡ true → Proxied direct
    by_header :
        (plan : ProxyPlan)
        → (lower proxy_header == "none") ≡ false
        → blank proxy_header ≡ false
        → IsProxy settings proxy_header plan
        → Proxied plan
    by_default :
        (plan : ProxyPlan)
        → blank proxy_header ≡ true
        → blank default_proxy ≡ false
        → IsProxy settings default_proxy plan
        → Proxied plan
    without : blank proxy_header ≡ true → blank default_proxy ≡ true → Proxied direct

  parse_proxy-Proxied : (plan : ProxyPlan) → parse_proxy headers settings ≡ ok plan → Proxied plan
  unfolding parse_proxy
  parse_proxy-Proxied plan h = elim (Bool-cases (lower proxy_header == "none")) [
    | inl out ↦ subst Proxied (ok-injective (rw out at h)) (opted_out out)
    | inr in_use ↦ elim (Bool-cases (blank proxy_header)) [
      | inr given ↦ by_header plan in_use given (
          plan_for_proxy-IsProxy proxy_header settings "X-Upstream-Proxy" plan
            (rw (in_use, given) at h))
      | inl bare ↦ elim (Bool-cases (blank default_proxy)) [
        | inr default ↦ by_default plan bare default (
            plan_for_proxy-IsProxy default_proxy settings "UPSTREAM_PROXY_DEFAULT" plan
              (rw (in_use, bare, default) at h))
        | inl none_set ↦
            subst Proxied (ok-injective (rw (in_use, bare, none_set) at h)) (without bare none_set)
      ]
    ]
  ]

  module _ (ip_address : String → Option IpAddress) (float_of : String → Option Float)
      (json_of : String → Option Value) where
    -- a channel that says what the headers of its request say
    pub record IsRequested (spec : ChannelSpec) : Type 0 where
      pub url : spec.upstream_url ≡ strip (header_or_empty headers "x-upstream-url")
      pub method : parse_method headers ≡ ok spec.method
      pub inline : spec.inline_script ≡ inline_of (stripped_header headers "x-script")
      pub base64 : spec.script_b64 ≡ stripped_header headers "x-script-64"
      pub ref : spec.script_ref ≡ stripped_header headers "x-script-ref"
      pub pin : spec.script_sha256 ≡ sha_of (stripped_header headers "x-script-sha256")
      pub key : spec.upstream_key ≡ upstream_key (strip (header_or_empty headers "authorization"))
      pub proxy : Proxied spec.proxy
      pub auth : auth_header (stripped_header headers "x-auth-emit") ≡ ok spec.auth
      pub job :
          async_header float_of (stripped_header headers "x-async") settings ≡ ok spec.async_spec
      pub options : parse_options json_of headers settings ≡ ok spec.options
      pub model_map : ModelMap.parse (headers "x-model-map") ≡ ok spec.model_map
      pub stages : StageSpec.parse ip_address settings float_of headers ≡ ok spec.stages

    pub parse_channel-IsRequested :
        (spec : ChannelSpec)
        → parse_channel ip_address float_of json_of headers settings ≡ ok spec
        → IsRequested spec
    unfolding parse_channel
    parse_channel-IsRequested spec h =
        let (given, h1) = refuse_if-eq-ok _ _ _ h in
        >>=-inversion
          (check_url ip_address (header_or_empty headers "x-upstream-url") settings
            "X-Upstream-Url")
          _ h1
          λ url u h2. >>=-inversion (parse_method headers) _ h2 λ method m h3.
            >>=-inversion (parse_proxy headers settings) _ h3 λ proxy p h4.
              let (some_source, h5) =
                refuse_if-eq-ok (eqb (provided headers script_headers) 0)
                  (channel_config_error "X-Script") _ h4 in
              let (no_more, h6) =
                refuse_if-eq-ok (ltb 1 (provided headers script_headers))
                  (channel_config_error "X-Script") _ h5 in
              >>=-inversion (auth_header (stripped_header headers "x-auth-emit")) _ h6 λ auth a h7.
                >>=-inversion (async_header float_of (stripped_header headers "x-async") settings) _
                  h7
                  λ async_spec s h8.
                    >>=-inversion (parse_options json_of headers settings) _ h8 λ options o h9.
                      >>=-inversion (ModelMap.parse (headers "x-model-map")) _ h9 λ table t h10.
                        >>=-inversion (StageSpec.parse ip_address settings float_of headers) _ h10
                          λ stages g h11. subst IsRequested (ok-injective h11) (record {
                            url =
                                (check_url-IsOutbound ip_address settings
                                  (header_or_empty headers "x-upstream-url") "X-Upstream-Url" url
                                  u).0;
                            method = m;
                            inline = refl;
                            base64 = refl;
                            ref = refl;
                            pin = refl;
                            key = refl;
                            proxy = parse_proxy-Proxied proxy p;
                            auth = a;
                            job = s;
                            options = o;
                            model_map = t;
                            stages = g;
                          })
