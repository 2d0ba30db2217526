-- ===== src/Stages/AuthHeaders.antt =====
-- What becomes of the headers that a cascade's auth phase returns.
use image_adapter.Base.{◌≡◌, refl, String, List, [], ◌∷◌, Assoc, Bool-cases, inl, inr, is_empty}
use image_adapter.Budget.{Budget}
use image_adapter.Settings.{Settings}
use image_adapter.Channel.{ChannelSpec}
use image_adapter.Value.{Value}
use image_adapter.Errors.{Result, ok, err, crash}
use image_adapter.Base.{Option, none, some}
use image_adapter.Engine.{Outside, World, Exec}
use image_adapter.Executor.{CompiledScript}
use image_adapter.Stages.{Progress, run_stages, run_stage, after_stage, emit_auth}

module _ (o : Outside) (script : CompiledScript) (channel : ChannelSpec) (settings : Settings) where
  open o use {St}

  run_stage-emit_auth :
      (headers : Assoc String) (stage : String) (budget : Budget) (input : Value) (w : World St)
      → run_stage o script channel settings stage budget input
          (record w { ctx = emit_auth o headers w.ctx })
        ≡ run_stage o script channel settings stage budget input w
  unfolding run_stage emit_auth
  run_stage-emit_auth headers stage budget input w = elim (Bool-cases (is_empty headers)) [
    | inl without ↦ rw without refl
    | inr with_some ↦ rw with_some refl
  ]

  after_stage-rest :
      (rest others : Progress → Exec (World St) Progress) (stage : String) (p : Progress)
      (r : Result (Option Value)) (w : World St)
      → ((q : Progress) (v : World St) → rest q v ≡ others q v)
      → after_stage o script rest stage p r w ≡ after_stage o script others stage p r w
  unfolding after_stage
  after_stage-rest rest others stage p (ok (some artefact)) w h = h _ _
  after_stage-rest rest others stage p (ok none) w h = h p w
  after_stage-rest rest others stage p (err e) w h = refl
  after_stage-rest rest others stage p crash w h = refl

  -- The headers that the auth phase returns make no difference to the stages: the loop does the same
  -- with any headers as with none.
  pub run_stages-headers :
      (budget : Budget) (headers : Assoc String) (stages : List String) (p : Progress)
      (w : World St)
      → run_stages o script channel settings budget headers stages p w
        ≡ run_stages o script channel settings budget [] stages p w
  unfolding run_stages
  run_stages-headers budget headers [] p w = refl
  run_stages-headers budget headers (stage ∷ stages) p w =
      rw
        (
          run_stage-emit_auth headers stage budget p.input w,
          run_stage-emit_auth [] stage budget p.input w,
        )
        (after_stage-rest (run_stages o script channel settings budget headers stages)
          (run_stages o script channel settings budget [] stages) stage p
          (run_stage o script channel settings stage budget p.input w).0
          (run_stage o script channel settings stage budget p.input w).1
          (λ q v. run_stages-headers budget headers stages q v))
