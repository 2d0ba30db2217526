-- ===== src/Channel.antt =====
-- adapter/channel.py: the channel directive of one request, parsed from its headers. `headers name`
-- is `headers.get(name)` for a lower-case name. Parameters stand for `ip_address`, for Python's
-- `float(text)` and for `json.loads` before its hook; `none` is their ValueError.
pub mod Escapes
pub mod Headers
pub mod Spec
use Prim.Native.Char.{Char, code}
use Prim.Native.String.{[], ◌∷◌}
use image_adapter.Base.{
  ℕ, suc, String, Bool, true, false, not, ◌&&◌, ◌||◌, Option, none, some, List, [], ◌∷◌, eqb, ◌==◌,
  if◌then◌else◌, elem, is_some, Assoc, or_else, map, length, ltb,
}
use image_adapter.Text.{strip, lower, upper, blank, split, partition, has_char, starts_with, drop}
use image_adapter.Errors.{Result, ok, err, channel_config_error, ◌>>=◌, ◌>>◌, refuse_if}
use image_adapter.Float.{Float, fin, le_zero}
use image_adapter.Settings.{Settings}
use image_adapter.UrlGuard.{IpAddress, check_url, check_proxy_url}
use image_adapter.ProxyPlan.{ProxyPlan, direct, parse_hosts}
use image_adapter.ModelMap
use image_adapter.StageSpec
use image_adapter.StageSpec.{StageSpec}
use image_adapter.Value.{
  Value, null, skip, bool, int, float, str, bytes, list, dict, Items, nil, cons, Fields, end, field,
  get, put, no_fields, is_dict,
}

abbrev pub valid_methods : List String
valid_methods = "GET" ∷ "POST" ∷ "PUT" ∷ "PATCH" ∷ "DELETE" ∷ []

abbrev pub auth_targets : List String
auth_targets = "header" ∷ "query" ∷ "body" ∷ "none" ∷ []

pub record AuthEmit : Type 0 where
  pub target : String
  pub name : String
  pub prefix : String

-- AuthEmit()
abbrev pub default_auth : AuthEmit
default_auth = record { target = "header"; name = "Authorization"; prefix = "Bearer" }

-- `parts[0]` of a split, which always has one, and the later parts
abbrev pub first_part : List String → String
first_part [] = ""
first_part (p ∷ ps) = p

auth_of : String → List String → Result AuthEmit
auth_of target (kind ∷ name ∷ rest) =
    if blank name
    then err (channel_config_error "X-Auth-Emit")
    else ok (record { target = target; name = name; prefix = first_part rest })
auth_of target parts = err (channel_config_error "X-Auth-Emit")

-- AuthEmit.parse
unfoldable pub parse_auth : String → Result AuthEmit
unfolding auth_of
parse_auth raw =
    let parts = map strip (split b':' raw) in
    let target = lower (first_part parts) in
    if not (elem target auth_targets)
    then err (channel_config_error "X-Auth-Emit")
    else if target == "none"
    then ok (record { target = "none"; name = ""; prefix = "" })
    else auth_of target parts

pub record AsyncSpec : Type 0 where
  pub enabled : Bool
  pub poll_interval : Float
  pub timeout : Float

-- AsyncSpec(); a second is a thousand ticks
abbrev pub no_async : AsyncSpec
no_async = record { enabled = false; poll_interval = fin 2000; timeout = fin 300000 }

-- one checked pair of X-Async
unfoldable pub set_async : String → Float → AsyncSpec → Result AsyncSpec
set_async key parsed spec =
    if le_zero parsed
    then err (channel_config_error "X-Async")
    else if elem key ("poll" ∷ "interval" ∷ [])
    then ok (record spec { poll_interval = parsed })
    else if key == "timeout"
    then ok (record spec { timeout = parsed })
    else err (channel_config_error "X-Async")

unfoldable pub add_async : (String → Option Float) → String → AsyncSpec → Result AsyncSpec
unfolding set_async
add_async float_of token spec =
    let pair = partition b'=' token in
    if blank token
    then ok spec
    else if not (has_char b'=' token)
    then err (channel_config_error "X-Async")
    else elim (float_of (strip pair.tail)) [
      | none ↦ err (channel_config_error "X-Async")
      | some parsed ↦ set_async (lower (strip pair.head)) parsed spec
    ]

unfoldable pub async_tokens : (String → Option Float) → List String → AsyncSpec → Result AsyncSpec
unfolding add_async
async_tokens float_of [] spec = ok spec
async_tokens float_of (token ∷ rest) spec = do
  more ← add_async float_of (strip token) spec
  async_tokens float_of rest more

-- AsyncSpec.parse
unfoldable pub parse_async : (String → Option Float) → String → Settings → Result AsyncSpec
unfolding async_tokens
parse_async float_of raw settings = async_tokens float_of (split b',' raw) (record {
  enabled = true;
  poll_interval = settings.poll_interval_default;
  timeout = settings.poll_timeout_default;
})

pub record ChannelSpec : Type 0 where
  pub upstream_url : String
  pub method : String
  pub inline_script : Option String
  pub script_b64 : Option String
  pub script_ref : Option String
  pub script_sha256 : Option String
  pub upstream_key : String
  pub proxy : ProxyPlan
  pub auth : AuthEmit
  pub async_spec : AsyncSpec
  pub options : Fields
  pub model_map : Assoc String
  pub stages : StageSpec

-- `_UNESCAPES.get(char, "\\" + char)`, in front of the text that follows
unfoldable pub unescaped : Char → String → String
unescaped c rest =
    if eqb (code c) b'n'
    then "\n" ∷ rest
    else if eqb (code c) b't'
    then "\t" ∷ rest
    else if eqb (code c) b'r'
    then "\r" ∷ rest
    else if eqb (code c) 92
    then "\\" ∷ rest
    else "\\" ∷ c ∷ rest

-- _unescape_inline: a backslash and the next character, unless that is a line break, make a pair.
unfoldable pub unescape_inline : String → String
unfolding unescaped
unescape_inline [] = []
unescape_inline (c ∷ []) = c ∷ []
unescape_inline (c ∷ d ∷ s) =
    let paired = unescaped d (unescape_inline s) in
    let plain : String = c ∷ unescape_inline (d ∷ s) in
    if eqb (code c) 92 && not (eqb (code d) 10) then paired else plain

-- _object_without_repeats, the hook on every object of a JSON text. An object that `json_of` gives
-- still has its repeated keys.
unfoldable mutual
  pub without_repeats : Value → Result Value
  without_repeats (list vs) = items_without_repeats vs >>= λ ws. ok (list ws)
  without_repeats (dict d) = fields_without_repeats d >>= λ e. ok (dict e)
  without_repeats null = ok null
  without_repeats skip = ok skip
  without_repeats (bool b) = ok (bool b)
  without_repeats (int n) = ok (int n)
  without_repeats (float x) = ok (float x)
  without_repeats (str s) = ok (str s)
  without_repeats (bytes b) = ok (bytes b)

  pub items_without_repeats : Items → Result Items
  items_without_repeats nil = ok nil
  items_without_repeats (cons v vs) =
      without_repeats v >>= λ w. items_without_repeats vs >>= λ ws. ok (cons w ws)

  pub fields_without_repeats : Fields → Result Fields
  fields_without_repeats end = ok end
  fields_without_repeats (field k v d) = without_repeats v >>= λ w.
      fields_without_repeats d >>= λ e.
      if is_some (get k e) then err (channel_config_error "X-Channel-Options") else ok (field k w e)

-- {**d, **e}
unfoldable pub merge : Fields → Fields → Fields
unfolding put
merge d end = d
merge d (field k v e) = merge (put k v d) e

-- An absent header reads as "".
abbrev pub header_or_empty : (String → Option String) → String → String
header_or_empty headers name = or_else (headers name) ""

-- (headers.get(name) or "").strip() or None
abbrev pub stripped_header : (String → Option String) → String → Option String
stripped_header headers name =
    let value = strip (header_or_empty headers name) in if blank value then none else some value

-- a JSON text that must be an object, without repeated keys
unfoldable pub parse_object : (String → Option Value) → String → String → Result Fields
unfolding without_repeats
parse_object json_of header raw = elim (json_of raw) [
  | none ↦ err (channel_config_error header)
  | some v ↦
      without_repeats v >>= λ w. elim w [ dict d ↦ ok d | _ ↦ err (channel_config_error header) ]
]

-- parse_default_options
unfoldable pub parse_default_options : (String → Option Value) → String → Result Fields
unfolding parse_object
parse_default_options json_of raw =
    if blank (strip raw) then ok end else parse_object json_of "DEFAULT_CHANNEL_OPTIONS" (strip raw)

unfoldable pub plan_for_proxy : String → Settings → String → Result ProxyPlan
plan_for_proxy raw settings header = do
  url ← check_proxy_url raw settings header
  bypass ← parse_hosts settings.upstream_proxy_bypass_hosts "UPSTREAM_PROXY_BYPASS_HOSTS"
  ok (record { url = url; bypass = bypass })

-- the channel header wins, `none` opts out, and the deployment's default stands in for a header
-- that says nothing
unfoldable pub parse_proxy : (String → Option String) → Settings → Result ProxyPlan
unfolding plan_for_proxy
parse_proxy headers settings =
    let raw = strip (header_or_empty headers "x-upstream-proxy") in
    let default = strip settings.upstream_proxy_default in
    if lower raw == "none"
    then ok direct
    else if not (blank raw)
    then plan_for_proxy raw settings "X-Upstream-Proxy"
    else if not (blank default)
    then plan_for_proxy default settings "UPSTREAM_PROXY_DEFAULT"
    else ok direct

-- how many of the three script headers carry a value
unfoldable pub provided : (String → Option String) → List String → ℕ
provided headers [] = 0
provided headers (name ∷ names) =
    let more = provided headers names in
    if blank (strip (header_or_empty headers name)) then more else suc more

abbrev pub script_headers : List String
script_headers = "x-script" ∷ "x-script-64" ∷ "x-script-ref" ∷ []

-- the method header: an empty one reads as absent
unfoldable pub parse_method : (String → Option String) → Result String
parse_method headers =
    let raw = header_or_empty headers "x-upstream-method" in
    let method = upper (strip (if blank raw then "POST" else raw)) in
    if elem method valid_methods then ok method else err (channel_config_error "X-Upstream-Method")

unfoldable pub upstream_key : String → String
upstream_key authorization =
    if starts_with (lower authorization) "bearer "
    then strip (drop 7 authorization)
    else authorization

-- the channel's own options, {} without the header
unfoldable pub own_options : (String → Option Value) → Option String → Result Fields
unfolding parse_object
own_options json_of none = ok end
own_options json_of (some raw) = parse_object json_of "X-Channel-Options" raw

unfoldable pub parse_options :
    (String → Option Value) → (String → Option String) → Settings → Result Fields
unfolding own_options parse_default_options merge
parse_options json_of headers settings = do
  own ← own_options json_of (stripped_header headers "x-channel-options")
  defaults ← parse_default_options json_of settings.default_channel_options
  let options = if no_fields defaults then own else merge defaults own
  refuse_if (is_some (get "model_map" options)) (channel_config_error "X-Channel-Options")
  ok options

unfoldable pub auth_header : Option String → Result AuthEmit
unfolding parse_auth
auth_header none = ok default_auth
auth_header (some raw) = parse_auth raw

unfoldable pub async_header : (String → Option Float) → Option String → Settings → Result AsyncSpec
unfolding parse_async
async_header float_of none settings = ok no_async
async_header float_of (some raw) settings = parse_async float_of raw settings

abbrev pub inline_of : Option String → Option String
inline_of none = none
inline_of (some raw) = some (unescape_inline raw)

abbrev pub sha_of : Option String → Option String
sha_of none = none
sha_of (some sha) = some (lower sha)

module _ (ip_address : String → Option IpAddress) (float_of : String → Option Float)
    (json_of : String → Option Value) where
  unfoldable pub parse_channel : (String → Option String) → Settings → Result ChannelSpec
  unfolding parse_method parse_proxy provided auth_header async_header parse_options upstream_key
  parse_channel headers settings = do
    refuse_if (blank (strip (header_or_empty headers "x-upstream-url")))
        (channel_config_error "X-Upstream-Url")
    url ← check_url ip_address (header_or_empty headers "x-upstream-url") settings "X-Upstream-Url"
    method ← parse_method headers
    proxy ← parse_proxy headers settings
    refuse_if (eqb (provided headers script_headers) 0) (channel_config_error "X-Script")
    refuse_if (ltb 1 (provided headers script_headers)) (channel_config_error "X-Script")
    auth ← auth_header (stripped_header headers "x-auth-emit")
    async_spec ← async_header float_of (stripped_header headers "x-async") settings
    options ← parse_options json_of headers settings
    model_map ← ModelMap.parse (headers "x-model-map")
    stages ← StageSpec.parse ip_address settings float_of headers
    ok (record {
      upstream_url = url;
      method = method;
      inline_script = inline_of (stripped_header headers "x-script");
      script_b64 = stripped_header headers "x-script-64";
      script_ref = stripped_header headers "x-script-ref";
      script_sha256 = sha_of (stripped_header headers "x-script-sha256");
      upstream_key = upstream_key (strip (header_or_empty headers "authorization"));
      proxy = proxy;
      auth = auth;
      async_spec = async_spec;
      options = options;
      model_map = model_map;
      stages = stages;
    })
