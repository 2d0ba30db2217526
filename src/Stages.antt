-- ===== src/Stages.antt =====
-- adapter/stages.py: several upstream calls per request, one after another, within one budget.
pub mod Degrading
pub mod Listing
pub mod Sending
pub mod Paying
pub mod Paid
pub mod AuthHeaders
use image_adapter.Base.{
  ℕ, zero, suc, ◌+◌, String, Bool, true, false, not, ◌&&◌, Option, none, some, List, [], ◌∷◌, ◌++◌,
  ◌⊎◌, inl, inr, leb, ltb, if◌then◌else◌, elem, or_else, is_empty, is_some, length, Assoc, lookup,
  insert,
}
use image_adapter.Errors.{
  AdapterError, Result, ok, err, crash, channel_config_error, script_runtime_error,
  script_timeout_error, upstream_error, pipeline_timeout_error, poll_timeout_error,
  stage_timeout_error,
}
use image_adapter.Text.{take, append, blank}
use image_adapter.Budget
use image_adapter.Budget.{Budget, resolve_total}
use image_adapter.Float.{Float, nan, neg, fin, inf, truthy}
use image_adapter.Settings.{Settings}
use image_adapter.Channel.{ChannelSpec}
use image_adapter.Value
use image_adapter.Value.{
  Value, Bytes, dict, Fields, get, get_or_null, value_eq, is_json, is_null, skip, null, is_dict,
}
use image_adapter.Plan.{RequestPlan, empty_plan, update}
use image_adapter.Transport.{
  UpstreamReply, payload, Request, Reading, read, too_large, timed_out, lost, read_capped,
  parse_body, raise_for_status, build_request, authorised, texts, text_of,
}
use image_adapter.Engine.{
  Ctx, Outcome, returned, overran, raised, failed, Response, Exchange, no_answer, no_connection,
  replied, Outside, Event, phase, call, World, Exec, ◌>>=◌, ◌>>◌, pure, raise, gets, modify, lift,
  cleared, reset_plan, proceed,
}
use image_adapter.Upstream.{call_phase, do_upstream}
use image_adapter.PollLoop.{run_poll_loop}
use image_adapter.Executor.{CompiledScript, handles, job_result, finish_job}

pub record StageOutcome : Type 0 where
  pub payload : Value
  pub degraded : Option (String × String)
  pub calls : ℕ

-- the suffix that names a stage's phase
abbrev pub staged : String → String → String
staged kind stage = append kind stage

unfoldable pub declares_all : List String → List String → Bool
declares_all [] names = true
declares_all (stage ∷ stages) names = elem stage names && declares_all stages names

abbrev pub within_count : Settings → List String → Result (List String)
within_count settings stages =
    if ltb settings.stage_max_count (length stages)
    then err (channel_config_error "X-Stages")
    else ok stages

unfoldable pub resolve_stages : CompiledScript → ChannelSpec → Settings → Result (List String)
unfolding declares_all
resolve_stages script channel settings =
    if is_empty channel.stages.names
    then within_count settings script.stages
    else if is_empty script.stages
    then err (channel_config_error "X-Stages")
    else if declares_all channel.stages.names script.stages
    then within_count settings channel.stages.names
    else err (channel_config_error "X-Stages")

-- How far a cascade is: the input of the next stage, the last artefact (null: none yet), and what the
-- outcome says.
pub record Progress : Type 0 where
  pub input : Value
  pub artefact : Value
  pub degraded : Option (String × String)
  pub calls : ℕ

abbrev pub start : Value → Progress
start client_payload = record {
  input = client_payload;
  artefact = null;
  degraded = none;
  calls = 0;
}

abbrev pub reason : AdapterError → String
reason e = if blank e.code then "error" else e.code

abbrev pub last_stage : List String → Option String → Option String
last_stage [] found = found
last_stage (stage ∷ stages) found = last_stage stages (some stage)

module _ (o : Outside) where
  open o use {St, clock, show}

  -- `_run_stage` from its call on
  unfoldable pub call_vendor :
      CompiledScript
      → ChannelSpec
      → Settings
      → String
      → Budget
      → Value
      → Exec (World St) (Option Value)
  unfolding do_upstream job_result call_phase
  call_vendor script channel settings stage budget body = do
    reply ←
        do_upstream o channel settings body (lookup stage channel.stages.urls) (some budget)
          (some stage) none
    upstream_payload ← finish_job o script channel settings reply (some budget) (some stage)
    reset_plan
    out ← call_phase o upstream_payload (staged "response:" stage)
    pure (some out)

  -- `_run_stage` after its first phase; none: the stage was skipped
  unfoldable pub call_stage :
      CompiledScript
      → ChannelSpec
      → Settings
      → String
      → Budget
      → Value
      → Exec (World St) (Option Value)
  unfolding call_vendor
  call_stage script channel settings stage budget skip = pure none
  call_stage script channel settings stage budget body =
      call_vendor script channel settings stage budget body

  -- _run_stage
  unfoldable pub run_stage :
      CompiledScript
      → ChannelSpec
      → Settings
      → String
      → Budget
      → Value
      → Exec (World St) (Option Value)
  unfolding call_phase call_stage
  run_stage script channel settings stage budget input = do
    reset_plan
    body ← call_phase o input (staged "request:" stage)
    call_stage script channel settings stage budget body

  -- what the loop emits before a stage
  unfoldable pub emit_auth : Assoc String → Ctx → Ctx
  unfolding update
  emit_auth headers ctx =
      if is_empty headers
      then ctx
      else record ctx { plan = record empty_plan { headers = update [] headers } }

  -- what follows a stage: the loop over the stages that are left goes on, or ends
  unfoldable pub after_stage :
      CompiledScript
      → (Progress → Exec (World St) Progress)
      → String
      → Progress
      → Result (Option Value)
      → Exec (World St) Progress
  unfolding insert
  after_stage script rest stage p (ok (some artefact)) w =
      rest
        (record {
          input = artefact;
          artefact = artefact;
          degraded = p.degraded;
          calls = p.calls + 1;
        })
        (record w { ctx = record w.ctx { stage = insert stage artefact w.ctx.stage } })
  after_stage script rest stage p (ok none) w = rest p w
  after_stage script rest stage p (err e) w =
      if elem stage script.fallback && not (is_null p.artefact)
      then (ok (record p { degraded = some (stage, reason e) }), w)
      else (err e, w)
  after_stage script rest stage p crash w = (crash, w)

  -- the loop over the stages
  unfoldable pub run_stages :
      CompiledScript
      → ChannelSpec
      → Settings
      → Budget
      → Assoc String
      → List String
      → Progress
      → Exec (World St) Progress
  unfolding run_stage after_stage emit_auth
  run_stages script channel settings budget auth_headers [] p w = (ok p, w)
  run_stages script channel settings budget auth_headers (stage ∷ stages) p w =
      let ran =
        run_stage script channel settings stage budget p.input
          (record w { ctx = emit_auth auth_headers w.ctx }) in
      after_stage script (run_stages script channel settings budget auth_headers stages) stage p
        ran.0 ran.1

  -- the cascade's auth phase
  unfoldable pub auth_headers_of : Value → Assoc String
  unfolding texts
  auth_headers_of (dict emitted) = update [] (texts show emitted)
  auth_headers_of v = []

  unfoldable pub authenticate_all : CompiledScript → Value → Exec (World St) (Assoc String)
  unfolding call_phase auth_headers_of
  authenticate_all script client_payload =
      if not (handles script "auth")
      then pure []
      else do emitted ← call_phase o client_payload "auth"; pure (auth_headers_of emitted)

  -- the partial result of a degraded cascade, shaped by the script if it can
  unfoldable pub shape_degraded : CompiledScript → Progress → Exec (World St) Value
  unfolding call_phase
  shape_degraded script p =
      if is_some p.degraded && handles script "degraded"
      then reset_plan >> call_phase o p.artefact "degraded"
      else pure p.artefact

  -- the phase that an unusable result is blamed on
  abbrev pub blamed : List String → Option (String × String) → String
  blamed stages (some (stage, why)) = staged "response:" stage
  blamed stages none = staged "response:" (or_else (last_stage stages none) "")

  abbrev pub present : List String → Progress → Value → Result StageOutcome
  present stages p result =
      if is_json result
      then ok (record { payload = result; degraded = p.degraded; calls = p.calls })
      else err (script_runtime_error (blamed stages p.degraded))

  -- the phase that the lack of a result is blamed on
  abbrev pub skipped : Option String → String
  skipped none = "request"
  skipped (some stage) = staged "request:" stage

  -- the end of `execute_staged`
  unfoldable pub conclude : CompiledScript → List String → Progress → Exec (World St) StageOutcome
  unfolding shape_degraded
  conclude script stages p =
      if is_null p.artefact
      then raise (script_runtime_error (skipped (last_stage stages none)))
      else do result ← shape_degraded script p; lift (present stages p result)

  -- the stages and what follows them
  unfoldable pub run_cascade :
      CompiledScript
      → ChannelSpec
      → Settings
      → Value
      → List String
      → Budget
      → Assoc String
      → Exec (World St) StageOutcome
  unfolding run_stages conclude
  run_cascade script channel settings client_payload stages budget auth_headers =
      run_stages script channel settings budget auth_headers stages (start client_payload)
      >>= conclude script stages

  -- execute_staged once the stages are known
  unfoldable pub start_cascade :
      CompiledScript → ChannelSpec → Settings → Value → List String → Exec (World St) StageOutcome
  unfolding resolve_total authenticate_all run_cascade
  start_cascade script channel settings client_payload stages w =
      let total =
        resolve_total channel.stages.budget settings.stage_budget_default
          settings.stage_budget_max in
      let budget : Budget = record { total = total; started = clock w.outside } in
      (authenticate_all script client_payload
          >>= run_cascade script channel settings client_payload stages budget)
        (record w { ctx = record w.ctx { budget = some budget; stage = [] } })

  unfoldable pub execute_staged :
      CompiledScript → ChannelSpec → Settings → Value → Exec (World St) StageOutcome
  unfolding resolve_stages start_cascade
  execute_staged script channel settings client_payload =
      lift (resolve_stages script channel settings)
      >>= start_cascade script channel settings client_payload
