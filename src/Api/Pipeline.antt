-- ===== src/Api/Pipeline.antt =====
-- adapter/api/pipeline.py: adapt, from a body to the result of its script. The checks on a request are
-- `ingress`; only what passes them runs.
pub mod Admitted
use image_adapter.Base.{
  ℕ, String, Bool, true, false, not, ◌||◌, Option, none, some, List, Assoc, is_empty, if◌then◌else◌,
}
use image_adapter.Errors.{Result, ok, err, crash, ◌>>=◌}
use image_adapter.Float.{Float}
use image_adapter.ModelMap
use image_adapter.Settings.{Settings}
use image_adapter.UrlGuard.{IpAddress}
use image_adapter.Value.{Value, str, dict, Fields, get, get_or_null, put, truthy}
use image_adapter.Channel.{ChannelSpec, parse_channel}
use image_adapter.Engine.{Ctx, Outcome, Outside, World}
use image_adapter.Executor.{CompiledScript, execute}
use image_adapter.Stages.{StageOutcome, execute_staged}
use image_adapter.Scripts.Source.{ScriptSource, Reach, resolve_source}
use image_adapter.Scripts.Cache.{load_script}

pub record AdaptResult : Type 0 where
  pub payload : Value
  pub script_sha256 : String
  pub stream : Bool
  pub degraded : Option (String × String)

-- What the application hands to a request, and what the libraries supply. `transforms` is what the
-- `transform` of a script's text does; `base` is everything else that the engine reaches.
pub record App : Type 1 where
  pub settings : Settings
  pub float_of : String → Option Float
  pub json_of : String → Option Value
  pub reach : Reach
  pub compile : String → Result CompiledScript
  pub cache_size : ℕ
  pub base : Outside
  pub transforms : String → Ctx → Value → String → base.St → Outcome × Ctx × base.St

abbrev pub text_model : Value → Option String
text_model (str name) = some name
text_model v = none

-- payload["model"] = mapped, if a model is mapped
unfoldable pub map_model : Assoc String → Fields → Fields
unfolding get put ModelMap.resolve
map_model table payload = elim (ModelMap.resolve (text_model (get_or_null "model" payload)) table) [
  | none ↦ payload
  | some mapped ↦ put "model" (str mapped) payload
]

-- a request that passed every check
pub record Ready : Type 0 where
  pub payload : Fields
  pub channel : ChannelSpec
  pub source : ScriptSource

module _ (app : App) (prepare : Fields → Result Fields) where
  unfoldable pub ingress : (String → Option String) → Fields → Result Ready
  unfolding parse_channel map_model resolve_source
  ingress headers body = do
    payload ← prepare body
    channel ← parse_channel app.reach.ip_address app.float_of app.json_of headers app.settings
    source ← resolve_source app.reach channel app.settings
    ok (record {
      payload = map_model channel.model_map payload;
      channel = channel;
      source = source;
    })

  -- the world of the engine once a script is loaded
  abbrev pub with_script : ScriptSource → Outside
  with_script source = record app.base { transform = app.transforms source.text }

  abbrev pub result_of : ScriptSource → Fields → Value → Option (String × String) → AdaptResult
  result_of source payload result degraded = record {
    payload = result;
    script_sha256 = source.sha256;
    stream = truthy (get_or_null "stream" payload);
    degraded = degraded;
  }

  abbrev pub staged_result : ScriptSource → Fields → Result StageOutcome → Result AdaptResult
  staged_result source payload outcome =
      outcome >>= λ out. ok (result_of source payload out.payload out.degraded)

  abbrev pub single_result : ScriptSource → Fields → Result Value → Result AdaptResult
  single_result source payload result = result >>= λ v. ok (result_of source payload v none)

  abbrev pub is_staged : CompiledScript → ChannelSpec → Bool
  is_staged script channel = not (is_empty script.stages) || not (is_empty channel.stages.names)

  -- the two executors
  unfoldable pub run_script :
      Ready → CompiledScript → World app.base.St → Result AdaptResult × World app.base.St
  unfolding execute execute_staged get truthy
  run_script ready script w =
      let o = with_script ready.source in
      let staged = execute_staged o script ready.channel app.settings (dict ready.payload) w in
      let single = execute o script ready.channel app.settings (dict ready.payload) none none w in
      if is_staged script ready.channel
      then (staged_result ready.source ready.payload staged.0, staged.1)
      else (single_result ready.source ready.payload single.0, single.1)

  abbrev pub after_load :
      Ready
      → Result CompiledScript × Assoc CompiledScript
      → World app.base.St
      → Result AdaptResult × Assoc CompiledScript × World app.base.St
  after_load ready (ok script, cache) w =
      let run = run_script ready script w in (run.0, cache, run.1)
  after_load ready (err e, cache) w = (err e, cache, w)
  after_load ready (crash, cache) w = (crash, cache, w)

  abbrev pub after_ingress :
      Result Ready
      → Assoc CompiledScript
      → World app.base.St
      → Result AdaptResult × Assoc CompiledScript × World app.base.St
  after_ingress (ok ready) cache w =
      after_load ready (load_script app.compile app.cache_size ready.source cache) w
  after_ingress (err e) cache w = (err e, cache, w)
  after_ingress crash cache w = (crash, cache, w)

  unfoldable pub adapt :
      (String → Option String)
      → Fields
      → Assoc CompiledScript
      → World app.base.St
      → Result AdaptResult × Assoc CompiledScript × World app.base.St
  unfolding ingress load_script run_script
  adapt headers body cache w = after_ingress (ingress headers body) cache w
