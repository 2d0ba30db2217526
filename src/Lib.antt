-- ===== src/Lib.antt =====
-- image-adapter: an HTTP service that speaks the OpenAI image API to its clients and runs a vendor
-- script against an upstream for each request. A request's headers give a channel (upstream URL,
-- credential, script, stages); the engine runs the script's phases and makes the calls itself.
--
-- Which file models which part:
--   Errors         adapter/errors.py: the exceptions as values (Result: ok, err, crash)
--   ModelMap       adapter/modelmap.py: parse, resolve
--   Budget, Float  adapter/budget.py: Budget, resolve_total; Python's floats with NaN and infinities,
--                  a time being a natural number of ticks
--   Settings       adapter/settings.py: the settings that the other parts read
--   Url            urllib.parse: urlparse, hostname, urlunparse, urlencode, as the code uses them
--   UrlGuard       adapter/urlguard.py: check_url, check_proxy_url
--   ProxyPlan      adapter/proxyplan.py: parse_hosts, host_matches, ProxyPlan.covers
--   StageSpec      adapter/stage_spec.py: StageSpec.parse
--   Channel        adapter/channel.py: parse_channel and the parsers that it calls
--   Value          Python values as scripts and JSON have them; dicts in their order
--   Plan           adapter/ctxapi/plan.py: RequestPlan, PlanMixin.emit
--   Transport      adapter/transport.py: build_request, read_capped, parse_body, raise_for_status
--   Engine         the state of a run (adapter/context.py) and the monad of its steps
--   Upstream       adapter/executor.py: _call_phase, _do_upstream
--   PollLoop       adapter/executor.py: _run_poll_loop
--   Executor       adapter/executor.py: execute
--   Stages         adapter/stages.py: resolve_stages, _run_stage, execute_staged
--   Declarations   adapter/script_cache.py: PHASES, STAGES and STAGE_FALLBACK
--   Scripts/Ref, Scripts/Manifest, Scripts/Store  adapter/scriptstore/: parse_ref; aliases and digests;
--                  ChainStore
--   Scripts/Source adapter/script_source.py: resolve_source
--   Scripts/Cache  adapter/script_cache.py: ScriptCache
--   Api/Images     adapter/api/images.py: validate_images_body
--   Api/Parts, Api/Chat, Api/Responses  adapter/api/frontdoor.py: the content of a message;
--                  messages_to_canonical; input_to_canonical
--   Api/Reply      adapter/api/frontdoor.py: canonical_to_chat, canonical_to_response
--   Api/Form       adapter/api/image_edits.py: normalise_edits_form, of a parsed form
--   Api/Pipeline   adapter/api/pipeline.py: adapt
--   Sizes          adapter/ctxapi/mapping.py: tier_value, fit_tier
--   Utils/Sse, Utils/Fanout  adapter/utils/: _deltas; fanout
--   Fallback       adapter/storage/fallback_store.py: FallbackStore
--   Pictures/Codec, Pictures/Fetch, Pictures/Shapes  adapter/ctxapi/codec.py, image_ref.py and storage.py: the
--                  download of a picture, the three shapes of a reference, the upload
--   Moderation     adapter/ctxapi/moderation.py: matched_moderation, fail_moderation
--   Vendors/Context  what a script sees: ctx.emit, ctx.fanout, ctx.fail and its own `_STATE`
--   Vendors/OpenAi script_store/openai/images@v1.py
--   Vendors/Hunyuan  script_store/tencent_hunyuan/images@v1.py
--   Middleware/BodyLimit, Middleware/RateLimit  adapter/middleware/: body_limit.py, rate_limit.py
--   TtlCache       adapter/context.py: TTLCache
--   StateStore     adapter/state_store.py: get, set and incr_window; Redis is a parameter
--   Base, Text     lists, options, association lists and strings; the children have the lemmas
--   Sample         a concrete channel and a concrete vendor
--   HeaderTests, EngineTests, CacheTests, StageTests, ApiTests, ScriptTests, UtilTests,
--   VendorTests, MiddlewareTests  the theorems at concrete inputs
--
-- A parsed channel is what the engine runs with: `parse_channel` checks every URL by `UrlGuard`, the
-- engine builds each request by `Transport` from the plan that the script left in the context, and
-- logs each phase and each call in `World.events`. The engine reads the clock before each call and
-- within each turn of the poll loop.
--
-- A client's body is checked and folded by its door (`Api`), its channel is parsed, its script is
-- resolved and loaded (`Scripts`), and only then do `Executor` or `Stages` run it: `Api.Pipeline` composes
-- them as `adapt` does. The world of the engine is untouched until the script runs.
--
-- Code outside the repository is a parameter: `Engine.Outside` has the script (any function of the
-- context, the payload and a state of its own), the vendor (an exchange may stay without an answer,
-- without a connection, or reply with a stream of chunks), the clock, `str` and the JSON decoder of
-- replies; the header parsers take `ipaddress`, `float` and the JSON decoder of headers.
-- `Scripts.Source.Reach` has hashing, base64, UTF-8, the fetch of a remote script and the backends of the
-- store; compiling a script's text is the argument `compile`; new ids and the time of a reply are
-- arguments of `Api.Reply`. Theorems on the script cache suppose that the digest tells texts apart.
--
-- `Pictures.Codec.Assets` has the cache, the HTTP client, the object store and base64. A fan-out does its
-- items in their order; what others do to the shared `_STATE` of a script meanwhile is explicit in
-- `Vendors.OpenAi.Parking`. `Middleware.BodyLimit.App` is any application; the counts of the rate
-- limit come from the state store or from the table of the process.
--
-- Bounds: nothing runs on fuel. The poll loop is a recursion on the attempts that are left, which
-- start at `poll_max_attempts`, as the code counts them; the loop over the stages is a recursion on
-- the list of stages; the reader of a reply is a recursion on its chunks; the loop over the aliases of a
-- manifest is a recursion on the eight names that it may still see.
--
-- Not modelled: spans and traces, the wording of messages, the parser of multipart forms, the files of a
-- script root, the scan and compilation of scripts, the backends of object storage, the resizing of
-- pictures, the CORS and logging middleware, and the vendor scripts other than OpenAI's and Hunyuan's.
pub mod Base
pub mod Text
pub mod Errors
pub mod ModelMap
pub mod Float
pub mod Budget
pub mod Url
pub mod Settings
pub mod UrlGuard
pub mod ProxyPlan
pub mod Value
pub mod StageSpec
pub mod Channel
pub mod Plan
pub mod Transport
pub mod Engine
pub mod Upstream
pub mod PollLoop
pub mod Executor
pub mod Stages
pub mod TtlCache
pub mod StateStore
pub mod Declarations
pub mod Sizes
pub mod Utils
pub mod Fallback
pub mod Scripts
pub mod Middleware
pub mod Moderation
pub mod Pictures
pub mod Vendors
pub mod Api
pub mod Sample
pub mod HeaderTests
pub mod EngineTests
pub mod CacheTests
pub mod StageTests
pub mod ApiTests
pub mod ScriptTests
pub mod UtilTests
pub mod VendorTests
pub mod MiddlewareTests
