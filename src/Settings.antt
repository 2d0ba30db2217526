-- ===== src/Settings.antt =====
-- adapter/settings.py: the settings that the modelled parts read, and the host lists made from
-- comma-separated values. Every other field is read by parts that are not modelled.
use image_adapter.Base.{ℕ, String, Bool, List, [], ◌∷◌, if◌then◌else◌}
use image_adapter.Text.{strip, lower, blank, split}
use image_adapter.Float.{Float}

pub record Settings : Type 0 where
  pub upstream_host_allowlist : String
  pub upstream_allow_private_network : Bool
  pub upstream_proxy_allowlist : String
  pub upstream_proxy_bypass_hosts : String
  pub upstream_proxy_default : String
  pub default_channel_options : String
  pub script_timeout : Float
  pub upstream_timeout : Float
  pub poll_interval_default : Float
  pub poll_timeout_default : Float
  pub poll_request_timeout : Float
  pub poll_max_attempts : ℕ
  pub stage_budget_default : Float
  pub stage_budget_max : Float
  pub stage_max_count : ℕ
  pub max_upstream_bytes : ℕ
  pub allow_inline_script : Bool
  pub allow_remote_script : Bool
  pub remote_script_hosts : String
  pub script_sha256_allowlist : String
  pub max_inline_script_bytes : ℕ
  pub max_script_bytes : ℕ
  pub max_asset_bytes : ℕ
  pub fanout_concurrency : ℕ
  pub storage_key_prefix : String
  pub max_request_bytes : ℕ
  pub redis_url : String
  pub rate_limit_enabled : Bool
  pub rate_limit_per_minute : ℕ

trimmed_lower : List String → List String
trimmed_lower [] = []
trimmed_lower (h ∷ hs) =
    let rest = trimmed_lower hs in if blank (strip h) then rest else lower (strip h) ∷ rest

-- {h.strip().lower() for h in raw.split(",") if h.strip()}
unfoldable pub host_set : String → List String
unfolding trimmed_lower strip lower split
host_set raw = trimmed_lower (split b',' raw)

abbrev pub upstream_host_set : Settings → List String
upstream_host_set s = host_set s.upstream_host_allowlist

abbrev pub upstream_proxy_host_set : Settings → List String
upstream_proxy_host_set s = host_set s.upstream_proxy_allowlist

abbrev pub remote_host_set : Settings → List String
remote_host_set s = host_set s.remote_script_hosts

abbrev pub sha256_allowlist : Settings → List String
sha256_allowlist s = host_set s.script_sha256_allowlist
