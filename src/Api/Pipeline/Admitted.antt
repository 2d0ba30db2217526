-- ===== src/Api/Pipeline/Admitted.antt =====
-- What has been checked before a script runs.
use image_adapter.Base.{String, Option, Assoc, inl, inr, ◌⊎◌, ◌≡◌, refl, sym}
use mathlib.Core.Path.{subst}
use image_adapter.Errors.{ok-injective, Result, ok, err, crash, >>=-inversion}
use image_adapter.Value.{Fields}
use image_adapter.Channel.{parse_channel}
use image_adapter.Channel.Headers.{IsRequested, parse_channel-IsRequested}
use image_adapter.Channel.Spec.{IsChannelSpec, parse_channel-IsChannelSpec}
use image_adapter.Engine.{World}
use image_adapter.Executor.{CompiledScript}
use image_adapter.Scripts.Source.{resolve_source}
use image_adapter.Scripts.Source.Verified.{IsVerified, resolve_source-IsVerified}
use image_adapter.Scripts.Cache.{load_script}
use image_adapter.Scripts.Cache.Coherent.{IsCoherent, load_script-IsCoherent}
use image_adapter.Api.Pipeline.{
  AdaptResult, App, map_model, Ready, ingress, run_script, after_load, after_ingress, adapt,
}

abbrev pub IsRefusal : {A : Type 0} → Result A → Type 0
IsRefusal (ok a) = ⊥
IsRefusal r = Unit {0}

module _ (app : App) (prepare : Fields → Result Fields) where
  -- What the checks establish for the headers and the body of a request.
  pub record IsReady (headers : String → Option String) (body : Fields) (ready : Ready)
      : Type 0 where
    pub prepared :
        (payload : Fields) × (prepare body ≡ ok payload)
        × (ready.payload ≡ map_model ready.channel.model_map payload)
    pub requested :
        IsRequested headers app.settings app.reach.ip_address app.float_of app.json_of ready.channel
    pub channel : IsChannelSpec app.reach.ip_address app.settings ready.channel
    pub source : IsVerified app.reach ready.channel app.settings ready.source

  ingress-IsReady :
      (headers : String → Option String) (body : Fields) (ready : Ready)
      → ingress app prepare headers body ≡ ok ready
      → IsReady headers body ready
  unfolding ingress
  ingress-IsReady headers body ready h = >>=-inversion (prepare body) _ h λ payload prepared h1.
      >>=-inversion
        (parse_channel app.reach.ip_address app.float_of app.json_of headers app.settings) _ h1
        λ channel parsed h2.
          >>=-inversion (resolve_source app.reach channel app.settings) _ h2 λ source resolved h3.
            subst (IsReady headers body) (ok-injective h3) (record {
              prepared = (payload, prepared, refl);
              requested =
                  parse_channel-IsRequested headers app.settings app.reach.ip_address app.float_of
                    app.json_of channel parsed;
              channel =
                  parse_channel-IsChannelSpec app.reach.ip_address app.float_of app.json_of headers
                    app.settings channel parsed;
              source = resolve_source-IsVerified app.reach channel app.settings source resolved;
            })

  module _ (apart : (s t : String) → app.reach.digest s ≡ app.reach.digest t → s ≡ t) where
    -- a run that was refused before the script, or the script's run
    abbrev pub IsAdmitted :
        (String → Option String)
        → Fields
        → World app.base.St
        → Result AdaptResult × Assoc CompiledScript × World app.base.St
        → Type 0
    IsAdmitted headers body w (result, cache, after) =
        IsCoherent app.reach.digest apart app.compile app.cache_size cache
        × ((IsRefusal result × (after ≡ w))
            ⊎ ((ready : Ready) × (script : CompiledScript) × IsReady headers body ready
                × (app.compile ready.source.text ≡ ok script)
                × (result ≡ (run_script app prepare ready script w).0)
                × (after ≡ (run_script app prepare ready script w).1)))

    after_load-IsAdmitted :
        (headers : String → Option String) (body : Fields) (w : World app.base.St) (ready : Ready)
        (loaded : Result CompiledScript) (cache : Assoc CompiledScript)
        → IsReady headers body ready
        → loaded ≡ app.compile ready.source.text
        → IsCoherent app.reach.digest apart app.compile app.cache_size cache
        → IsAdmitted headers body w (after_load app prepare ready (loaded, cache) w)
    after_load-IsAdmitted headers body w ready (ok script) cache r e c =
        (c, inr (ready, script, r, sym e, refl, refl))
    after_load-IsAdmitted headers body w ready (err raised) cache r e c = (c, inl (tt, refl))
    after_load-IsAdmitted headers body w ready crash cache r e c = (c, inl (tt, refl))

    after_ingress-IsAdmitted :
        (headers : String → Option String) (body : Fields) (w : World app.base.St)
        (admitted : Result Ready) (cache : Assoc CompiledScript)
        → ((ready : Ready) → admitted ≡ ok ready → IsReady headers body ready)
        → IsCoherent app.reach.digest apart app.compile app.cache_size cache
        → IsAdmitted headers body w (after_ingress app prepare admitted cache w)
    after_ingress-IsAdmitted headers body w (ok ready) cache r c =
        let is_ready = r ready refl in
        let (loaded, coherent) =
          load_script-IsCoherent app.reach.digest apart app.compile app.cache_size ready.source
            cache is_ready.source.digest c in
        after_load-IsAdmitted headers body w ready
          (load_script app.compile app.cache_size ready.source cache).0
          (load_script app.compile app.cache_size ready.source cache).1 is_ready loaded coherent
    after_ingress-IsAdmitted headers body w (err raised) cache r c = (c, inl (tt, refl))
    after_ingress-IsAdmitted headers body w crash cache r c = (c, inl (tt, refl))

    -- A request either is refused with nothing run and no call made, or this holds before its script
    -- runs: its body is the one that the door prepared, under the channel's model mapping; its channel
    -- says what the headers say, and its URL and its proxy pass the guards for outgoing URLs and for
    -- proxies; it has one script, which is verified against the channel and the deployment; and what runs
    -- is what that script's text compiles to, be it from the cache or not. The result is then the run's,
    -- and the script cache stays coherent in every case, if the digest tells texts apart and the cache
    -- was coherent.
    pub adapt-IsAdmitted :
        (headers : String → Option String) (body : Fields) (cache : Assoc CompiledScript)
        (w : World app.base.St)
        → IsCoherent app.reach.digest apart app.compile app.cache_size cache
        → IsAdmitted headers body w (adapt app prepare headers body cache w)
    unfolding adapt
    adapt-IsAdmitted headers body cache w c =
        after_ingress-IsAdmitted headers body w (ingress app prepare headers body) cache
          (ingress-IsReady headers body) c
