-- ===== src/Channel/Spec.antt =====
-- What a parsed channel specification is.
use mathlib.Core.Path.{subst}
use image_adapter.Base.{
  ℕ, String, true, false, ◌≡◌, Option, none, some, arith, elem, eqb, ltb, is_some, ◌+◌,
  if◌then◌else◌,
}
use image_adapter.Errors.{
  ok-injective, ok, refuse_if, refuse_if-eq-ok, >>=-inversion, channel_config_error, ◌>>◌,
}
use image_adapter.Float.{Float}
use image_adapter.Settings.{Settings}
use image_adapter.UrlGuard.{IpAddress, check_url}
use image_adapter.UrlGuard.Guards.{IsOutbound, check_url-IsOutbound}
use image_adapter.ModelMap
use image_adapter.ModelMap.Table.{IsTable, parse-IsTable}
use image_adapter.StageSpec
use image_adapter.StageSpec.Names.{IsStageSpec, parse-IsStageSpec}
use image_adapter.Value.{Value, Fields, get, no_fields}
use image_adapter.Channel.{
  ChannelSpec, valid_methods, header_or_empty, stripped_header, provided, script_headers,
  parse_method, parse_proxy, parse_options, parse_channel, merge, own_options,
  parse_default_options, auth_header, async_header, inline_of,
}

abbrev pub count_one {ℓ} : {A : Type ℓ} → Option A → ℕ
count_one none = 0
count_one (some a) = 1

-- how many script sources a specification carries
abbrev pub sources : ChannelSpec → ℕ
sources spec = count_one spec.inline_script + count_one spec.script_b64 + count_one spec.script_ref

module _ (ip_address : String → Option IpAddress) (settings : Settings) where
  pub record IsChannelSpec (spec : ChannelSpec) : Type 0 where
    pub url : IsOutbound ip_address settings spec.upstream_url
    pub method : elem spec.method valid_methods ≡ true
    pub one_source : sources spec ≡ 1
    pub options : get "model_map" spec.options ≡ none
    pub model_map : IsTable spec.model_map
    pub stages : IsStageSpec ip_address settings spec.stages

parse_method-valid :
    (headers : String → Option String) (method : String)
    → parse_method headers ≡ ok method
    → elem method valid_methods ≡ true
unfolding parse_method
parse_method-valid headers method h = ground arith

clean_of :
    (merged options : Fields)
    → (refuse_if (is_some (get "model_map" merged)) (channel_config_error "X-Channel-Options")
        >> ok merged)
      ≡ ok options
    → get "model_map" options ≡ none
clean_of merged options h =
    let (clean, kept) =
      refuse_if-eq-ok (is_some (get "model_map" merged)) (channel_config_error "X-Channel-Options")
        (ok merged) h in
    let equal : merged ≡ options = ground arith in rw (← equal) (none_of clean)
  where
    none_of : is_some (get "model_map" merged) ≡ false → get "model_map" merged ≡ none
    none_of e = ground arith

parse_options-clean :
    (json_of : String → Option Value) (headers : String → Option String) (settings : Settings)
    (options : Fields)
    → parse_options json_of headers settings ≡ ok options
    → get "model_map" options ≡ none
unfolding parse_options
parse_options-clean json_of headers settings options h =
    >>=-inversion (own_options json_of (stripped_header headers "x-channel-options")) _ h
      λ own o h1.
        >>=-inversion (parse_default_options json_of settings.default_channel_options) _ h1
          λ defaults d h2.
            clean_of (if no_fields defaults then own else merge defaults own) options h2

-- the script sources that a request's headers give
abbrev header_sources : (String → Option String) → ℕ
header_sources headers =
    count_one (stripped_header headers "x-script")
    + count_one (stripped_header headers "x-script-64")
    + count_one (stripped_header headers "x-script-ref")

provided-eq :
    (headers : String → Option String) → provided headers script_headers ≡ header_sources headers
unfolding provided
provided-eq headers = ground arith

one_provided :
    (headers : String → Option String)
    → eqb (provided headers script_headers) 0 ≡ false
    → ltb 1 (provided headers script_headers) ≡ false
    → header_sources headers ≡ 1
one_provided headers a b = ground (arith, provided-eq headers)

url_safety :
    (ip_address : String → Option IpAddress) (settings : Settings)
    (headers : String → Option String) (url : String)
    → check_url ip_address (header_or_empty headers "x-upstream-url") settings "X-Upstream-Url"
      ≡ ok url
    → IsOutbound ip_address settings url
url_safety ip_address settings headers url u =
    let (stripped, outbound) =
      check_url-IsOutbound ip_address settings (header_or_empty headers "x-upstream-url")
        "X-Upstream-Url" url u in
    rw stripped outbound

sources_of :
    (headers : String → Option String)
    → header_sources headers ≡ 1
    → count_one (inline_of (stripped_header headers "x-script"))
        + count_one (stripped_header headers "x-script-64")
        + count_one (stripped_header headers "x-script-ref")
      ≡ 1
sources_of headers h = ground arith

-- Whatever the headers, a channel specification that `parse_channel` returns has a checked outbound
-- URL, one of the five methods, exactly one script source, no `model_map` among its options, a
-- well-formed model table and well-formed stages.
pub parse_channel-IsChannelSpec :
    (ip_address : String → Option IpAddress) (float_of : String → Option Float)
    (json_of : String → Option Value) (headers : String → Option String) (settings : Settings)
    (spec : ChannelSpec)
    → parse_channel ip_address float_of json_of headers settings ≡ ok spec
    → IsChannelSpec ip_address settings spec
unfolding parse_channel
parse_channel-IsChannelSpec ip_address float_of json_of headers settings spec h =
    let (given, h1) = refuse_if-eq-ok _ _ _ h in
    >>=-inversion
      (check_url ip_address (header_or_empty headers "x-upstream-url") settings "X-Upstream-Url") _
      h1
      λ url u h2. >>=-inversion (parse_method headers) _ h2 λ method m h3.
        >>=-inversion (parse_proxy headers settings) _ h3 λ proxy p h4.
          let (some_source, h5) = refuse_if-eq-ok _ _ _ h4 in
          let (no_more, h6) = refuse_if-eq-ok _ _ _ h5 in
          >>=-inversion (auth_header (stripped_header headers "x-auth-emit")) _ h6 λ auth a h7.
            >>=-inversion (async_header float_of (stripped_header headers "x-async") settings) _ h7
              λ async_spec s h8.
                >>=-inversion (parse_options json_of headers settings) _ h8 λ options o h9.
                  >>=-inversion (ModelMap.parse (headers "x-model-map")) _ h9 λ table t h10.
                    >>=-inversion (StageSpec.parse ip_address settings float_of headers) _ h10
                      λ stages g h11.
                        subst (IsChannelSpec ip_address settings) (ok-injective h11) (record {
                          url = url_safety ip_address settings headers url u;
                          method = parse_method-valid headers method m;
                          one_source =
                              sources_of headers (one_provided headers some_source no_more);
                          options = parse_options-clean json_of headers settings options o;
                          model_map = parse-IsTable (headers "x-model-map") table t;
                          stages = parse-IsStageSpec ip_address settings float_of headers stages g;
                        })
