-- ===== src/HeaderTests.antt =====
-- The theorems on the channel headers, at concrete headers.
use image_adapter.Base.{
  ℕ, String, Bool, true, false, Option, none, some, List, [], ◌∷◌, ◌≡◌, refl, Assoc, All, distinct,
  keys, elem, inl, inr, ◌+◌, ◌≢◌, ◌↔◌, ◌⊎◌, ◌<◌, ◌≤◌, lookup, arith, is_empty,
}
use image_adapter.Text.{strip, lower, blank}
use image_adapter.Float.{nan, fin}
use image_adapter.Errors.{ok}
use image_adapter.Budget.{resolve_total, exhausted, cap}
use image_adapter.Budget.Spending.{Calls, none_yet, call, Calls-within, resolve_total_nan}
use image_adapter.ModelMap
use image_adapter.ModelMap.{resolve, wildcard}
use image_adapter.ModelMap.RoundTrip.{write, IsWritable, parse-write}
use image_adapter.ProxyPlan.{parse_hosts}
use image_adapter.StageSpec
use image_adapter.StageSpec.{StageSpec}
use image_adapter.Url.{ParsedUrl, urlparse, hostname}
use image_adapter.UrlGuard.{check_url, check_proxy_url, allowed_schemes}
use image_adapter.Settings.{Settings, upstream_proxy_host_set}
use image_adapter.UrlGuard.Guards.{IsOutbound, check_url-IsOutbound}
use image_adapter.Sample.{settings, no_address, one_second, no_json, headers, channel}
use image_adapter.Channel.{parse_channel}
use image_adapter.Channel.Spec.{IsChannelSpec, parse_channel-IsChannelSpec}

parse_channel_test : parse_channel no_address one_second no_json headers settings ≡ ok channel
unfolding parse_channel image_adapter.Text.strip image_adapter.Base.lookup
    image_adapter.UrlGuard.check_url image_adapter.Url.urlparse image_adapter.Url.hostname
    image_adapter.Settings.host_set image_adapter.Text.upper image_adapter.Value.get
    image_adapter.ModelMap.parse image_adapter.StageSpec.parse
parse_channel_test = refl

parse_channel-IsChannelSpec_example : IsChannelSpec no_address settings channel
parse_channel-IsChannelSpec_example =
    parse_channel-IsChannelSpec no_address one_second no_json headers settings channel
      parse_channel_test

check_url_test :
    check_url no_address " https://api.example.com/v1" settings "X"
    ≡ ok "https://api.example.com/v1"
unfolding check_url strip urlparse hostname image_adapter.Settings.host_set
check_url_test = refl

check_url-IsOutbound_example :
    ("https://api.example.com/v1" ≡ strip " https://api.example.com/v1")
    × IsOutbound no_address settings (strip " https://api.example.com/v1")
check_url-IsOutbound_example =
    check_url-IsOutbound no_address settings " https://api.example.com/v1" "X"
      "https://api.example.com/v1" check_url_test

abbrev proxied : Settings
proxied = record settings { upstream_proxy_allowlist = "proxy.local" }

abbrev proxy_url : ParsedUrl
proxy_url = record {
  scheme = "http";
  netloc = "127.0.0.1:80";
  path = "";
  query = "";
  fragment = "";
}

check_proxy_url_test :
    check_proxy_url "http://proxy.local:80" proxied "X" ≡ ok "http://proxy.local:80"
unfolding check_proxy_url strip urlparse hostname image_adapter.Settings.host_set
check_proxy_url_test = refl

no_list : upstream_proxy_host_set settings ≡ []
unfolding image_adapter.Settings.host_set
no_list = refl

loopback_text : blank (strip "http://127.0.0.1:80") ≡ false
unfolding strip
loopback_text = refl

loopback_parsed : urlparse (strip "http://127.0.0.1:80") ≡ some proxy_url
unfolding urlparse strip
loopback_parsed = refl

loopback_scheme : lower proxy_url.scheme ≡ "http"
unfolding lower
loopback_scheme = refl

loopback_host : blank (lower (hostname proxy_url)) ≡ false
unfolding lower hostname
loopback_host = refl

abbrev table : Assoc String
table = ("gpt", "seed") ∷ ("*", "flux") ∷ []

parse_test : ModelMap.parse (some "gpt=seed, *=flux") ≡ ok table
unfolding ModelMap.parse strip image_adapter.Text.split ModelMap.add_token
    image_adapter.Text.partition lookup image_adapter.Text.has_char image_adapter.Base.insert
parse_test = refl

resolve_test : resolve (some "dall-e") table ≡ some "flux"
unfolding resolve strip lookup
resolve_test = refl

glob_test : image_adapter.Text.has_char b'*' (strip "gpt*") ≡ true
unfolding image_adapter.Text.has_char strip
glob_test = refl

gpt-IsWritable : IsWritable ("gpt", "seed")
unfolding image_adapter.Text.is_space image_adapter.Text.rstrip image_adapter.Text.has_char
gpt-IsWritable = record {
  name = record { head = refl; last = refl; filled = refl };
  value = record { head = refl; last = refl; filled = refl };
  name_eq = refl;
  name_comma = refl;
  value_comma = refl;
  star = inl refl;
}

star-IsWritable : IsWritable ("*", "flux")
unfolding image_adapter.Text.is_space image_adapter.Text.rstrip image_adapter.Text.has_char
star-IsWritable = record {
  name = record { head = refl; last = refl; filled = refl };
  value = record { head = refl; last = refl; filled = refl };
  name_eq = refl;
  name_comma = refl;
  value_comma = refl;
  star = inr refl;
}

different_keys : distinct (keys table) ≡ true
unfolding keys
different_keys = refl

parse-write_example : ModelMap.parse (some (write table)) ≡ ok table
parse-write_example =
    parse-write ("gpt", "seed") (("*", "flux") ∷ []) (gpt-IsWritable, (star-IsWritable, tt))
      different_keys

hosts_test : parse_hosts "a.com, *.b.com" "X" ≡ ok ("a.com" ∷ "*.b.com" ∷ [])
unfolding parse_hosts image_adapter.Text.split lower strip image_adapter.ProxyPlan.check_pattern
    image_adapter.Text.has_char image_adapter.Text.starts_with image_adapter.Text.drop
hosts_test = refl

abbrev stage_headers : String → Option String
stage_headers name = lookup name (("x-stages", "draw, upscale") ∷ [])

abbrev spec : StageSpec
spec = record { names = "draw" ∷ "upscale" ∷ []; urls = []; budget = none }

stages_test : StageSpec.parse no_address settings one_second stage_headers ≡ ok spec
unfolding StageSpec.parse lookup strip image_adapter.Text.split
stages_test = refl

resolve_total_nan_example :
    exhausted (record { total = resolve_total (some nan) (fin 300) (fin 600); started = 7 }) 7
    ≡ true
resolve_total_nan_example = resolve_total_nan (fin 300) (fin 600) 7 7

abbrev budget : image_adapter.Budget.Budget
budget = record { total = fin 10; started = 5 }

cap_test : cap budget 5 (fin 20) ≡ fin 10
unfolding cap
cap_test = refl

budget_test : exhausted budget 5 ≡ false
unfolding exhausted
budget_test = refl

budget_left : exhausted budget 5 ≢ true
budget_left h = absurd (ground (arith, h, budget_test))

one_call : Calls budget 5 12
one_call = call (fin 20) 10 7 none_yet budget_left cap_test (omega arith) refl

Calls-within_example : (5 ≤ 12) × (12 ≤ 5 + 10)
Calls-within_example = Calls-within 10 refl (omega arith) (omega arith) one_call
