-- ===== src/Sample.antt =====
-- A deployment, a channel and a vendor, for the tests.
use image_adapter.Base.{ℕ, zero, suc, String, true, false, Option, none, some, [], ◌∷◌, lookup}
use image_adapter.Float.{Float, fin}
use image_adapter.Settings.{Settings}
use image_adapter.UrlGuard.{IpAddress}
use image_adapter.ProxyPlan.{direct}
use image_adapter.Value.{Value, dict, end, field, int, pos}
use image_adapter.Plan.{empty_plan}
use image_adapter.Channel.{ChannelSpec, default_auth, no_async}
use image_adapter.Transport.{Request, done}
use image_adapter.Engine.{Ctx, returned, Exchange, replied, Outside, World}
use image_adapter.Executor.{CompiledScript}

abbrev pub settings : Settings
settings = record {
  upstream_host_allowlist = "";
  upstream_allow_private_network = false;
  upstream_proxy_allowlist = "";
  upstream_proxy_bypass_hosts = "";
  upstream_proxy_default = "";
  default_channel_options = "";
  script_timeout = fin 30000;
  upstream_timeout = fin 120000;
  poll_interval_default = fin 2000;
  poll_timeout_default = fin 300000;
  poll_request_timeout = fin 30000;
  poll_max_attempts = 3;
  stage_budget_default = fin 300000;
  stage_budget_max = fin 600000;
  stage_max_count = 5;
  max_upstream_bytes = 1000;
  allow_inline_script = true;
  allow_remote_script = false;
  remote_script_hosts = "";
  script_sha256_allowlist = "";
  max_inline_script_bytes = 8192;
  max_script_bytes = 262144;
  max_asset_bytes = 1000;
  fanout_concurrency = 5;
  storage_key_prefix = "";
  max_request_bytes = 1000;
  redis_url = "";
  rate_limit_enabled = true;
  rate_limit_per_minute = 2;
}

abbrev pub no_address : String → Option IpAddress
no_address host = none

abbrev pub one_second : String → Option Float
one_second text = some (fin 1000)

abbrev pub no_json : String → Option Value
no_json text = none

abbrev pub headers : String → Option String
headers name =
    lookup name
      (("x-upstream-url", "https://api.example.com/v1") ∷ ("x-script-ref", "openai/images@v1") ∷ [])

abbrev pub channel : ChannelSpec
channel = record {
  upstream_url = "https://api.example.com/v1";
  method = "POST";
  inline_script = none;
  script_b64 = none;
  script_ref = some "openai/images@v1";
  script_sha256 = none;
  upstream_key = "";
  proxy = direct;
  auth = default_auth;
  async_spec = no_async;
  options = end;
  model_map = [];
  stages = record { names = []; urls = []; budget = none };
}

abbrev pub script : CompiledScript
script = record {
  phases = "request" ∷ "response" ∷ [];
  stages = "draw" ∷ "upscale" ∷ [];
  fallback = "upscale" ∷ [];
}

-- the vendor refuses its first request and answers the others
abbrev pub exchange : Request → Float → ℕ → Exchange × ℕ
exchange request limit zero = (
  replied (record {
    status = 400;
    content_type = "application/json";
    headers = [];
    content_length = none;
    body = done;
  }),
  1,
)
exchange request limit (suc n) = (
  replied (record {
    status = 200;
    content_type = "application/json";
    headers = [];
    content_length = none;
    body = done;
  }),
  suc (suc n),
)

abbrev pub vendor : Outside
vendor = record {
  St = ℕ;
  clock = λ n. n;
  transform = λ ctx payload name n. (returned (dict (field name (int (pos n)) end)), ctx, n);
  exchange = exchange;
  sleep = λ interval n. n;
  show = λ v. "";
  loads = λ body. some (dict end);
}

abbrev pub ctx : Ctx
ctx = record {
  plan = empty_plan;
  upstream_error = none;
  upstream_raw = none;
  budget = none;
  stage = [];
}

abbrev pub world : World ℕ
world = record { ctx = ctx; outside = 0; events = [] }
