-- ===== src/Executor.antt =====
-- adapter/executor.py: one upstream call per request, with its phases, its one retry and its poll
-- loop. A script's return values are fresh objects: none shares structure with the client's payload.
pub mod Trace
pub mod Calls
pub mod Retry
pub mod Attempts
pub mod Run
pub mod Order
pub mod Billing
use image_adapter.Base.{
  ℕ, zero, suc, ◌+◌, String, Bool, true, false, not, ◌&&◌, Option, none, some, List, [], ◌∷◌, ◌++◌,
  ◌⊎◌, inl, inr, leb, ltb, if◌then◌else◌, elem, or_else, is_empty, Assoc,
}
use image_adapter.Errors.{
  AdapterError, Result, ok, err, crash, channel_config_error, script_runtime_error,
  script_timeout_error, upstream_error, pipeline_timeout_error, poll_timeout_error,
  stage_timeout_error,
}
use image_adapter.Text.{take}
use image_adapter.Budget
use image_adapter.Budget.{Budget}
use image_adapter.Float.{Float, nan, neg, fin, inf, truthy}
use image_adapter.Settings.{Settings}
use image_adapter.Channel.{ChannelSpec}
use image_adapter.Value
use image_adapter.Value.{Value, Bytes, dict, Fields, get, get_or_null, value_eq, is_json, is_dict}
use image_adapter.Plan.{RequestPlan, empty_plan, update}
use image_adapter.Transport.{
  UpstreamReply, payload, Request, Reading, read, too_large, timed_out, lost, read_capped,
  parse_body, raise_for_status, build_request, authorised, texts, text_of,
}
use image_adapter.Engine.{
  Ctx, Outcome, returned, overran, raised, failed, Response, Exchange, no_answer, no_connection,
  replied, Outside, Event, phase, call, World, Exec, ◌>>=◌, ◌>>◌, pure, raise, gets, modify, lift,
  cleared, reset_plan, proceed,
}
use image_adapter.Upstream.{call_phase, do_upstream}
use image_adapter.PollLoop.{run_poll_loop}

-- adapter/script_cache.py: what a compiled script declares.
pub record CompiledScript : Type 0 where
  pub phases : List String
  pub stages : List String
  pub fallback : List String

-- CompiledScript.handles
abbrev pub handles : CompiledScript → String → Bool
handles script name = elem name script.phases

-- _request_was_refused
unfoldable pub request_was_refused : Option ℕ → Bool
request_was_refused none = false
request_was_refused (some status) = leb 400 status && ltb status 500

module _ (o : Outside) where
  open o use {St, show}

  -- the auth phase: what it returns becomes headers of the plan
  unfoldable pub emit_headers : Value → Ctx → Ctx
  unfolding update texts
  emit_headers (dict emitted) ctx = record ctx {
    plan = record ctx.plan { headers = update ctx.plan.headers (texts show emitted) };
  }
  emit_headers v ctx = ctx

  unfoldable pub authenticate : CompiledScript → Value → Exec (World St) (Unit {0})
  unfolding call_phase emit_headers
  authenticate script client_payload = if not (handles script "auth") then pure tt else do
    emitted ← call_phase o client_payload "auth"
    modify (λ w. record w { ctx = emit_headers emitted w.ctx })

  -- The answer to a refusal: one more request phase, and one more call unless it returned the body
  -- that was refused. `sent_body` is that body as the first call left it.
  unfoldable pub answer_refusal :
      ChannelSpec
      → Settings
      → Value
      → Option Budget
      → Option String
      → Value
      → AdapterError
      → Exec (World St) UpstreamReply
  unfolding call_phase do_upstream
  answer_refusal channel settings client_payload budget stage sent_body e = do
    modify (λ w. record w {
      ctx = record w.ctx { upstream_error = some (e.detail, e.upstream_status) };
    })
    reset_plan
    retried_body ← call_phase o client_payload "request"
    if value_eq retried_body sent_body
        then raise e
        else do_upstream o channel settings retried_body none budget stage none

  -- `except UpstreamError`
  unfoldable pub on_refusal :
      (AdapterError → Exec (World St) UpstreamReply)
      → Result UpstreamReply
      → Exec (World St) UpstreamReply
  on_refusal again (ok reply) w = (ok reply, w)
  on_refusal again (err e) w =
      if request_was_refused e.upstream_status then again e w else (err e, w)
  on_refusal again crash w = (crash, w)

  -- `apply_auth` adds a credential to the very dict that the script returned
  unfoldable pub sent_body : ChannelSpec → RequestPlan → Value → Value
  unfolding authorised
  sent_body channel plan body = if plan.body_set then body else (authorised channel plan body).body

  unfoldable pub call_upstream :
      ChannelSpec
      → Settings
      → Value
      → Value
      → Option Budget
      → Option String
      → Exec (World St) UpstreamReply
  unfolding do_upstream on_refusal answer_refusal sent_body
  call_upstream channel settings client_payload upstream_body budget stage w =
      let sent = sent_body channel w.ctx.plan upstream_body in
      let (first, w1) = do_upstream o channel settings upstream_body none budget stage none w in
      on_refusal (answer_refusal channel settings client_payload budget stage sent) first w1

  -- UpstreamReply(status=200, raw=local_result, headers={})
  abbrev pub local_reply : Bytes → UpstreamReply
  local_reply content = record { status = 200; json = none; raw = some content; headers = [] }

  -- the reply: the upstream's, or the script's own
  unfoldable pub obtain :
      Option Bytes
      → ChannelSpec
      → Settings
      → Value
      → Value
      → Option Budget
      → Option String
      → Exec (World St) UpstreamReply
  unfolding call_upstream
  obtain none channel settings client_payload upstream_body budget stage =
      call_upstream channel settings client_payload upstream_body budget stage
  obtain (some content) channel settings client_payload upstream_body budget stage =
      if channel.async_spec.enabled
      then raise (channel_config_error "X-Async")
      else pure (local_reply content)

  -- the payload of the response phase: the reply's, or the job's result if the script has both poll
  -- phases
  unfoldable pub job_result :
      Bool
      → Bool
      → ChannelSpec
      → Settings
      → UpstreamReply
      → Option Budget
      → Option String
      → Exec (World St) Value
  unfolding run_poll_loop
  job_result false declared channel settings reply budget stage = pure (payload reply)
  job_result true false channel settings reply budget stage = raise (channel_config_error "X-Async")
  job_result true true channel settings reply budget stage =
      run_poll_loop o channel settings reply budget stage

  abbrev pub finish_job :
      CompiledScript
      → ChannelSpec
      → Settings
      → UpstreamReply
      → Option Budget
      → Option String
      → Exec (World St) Value
  finish_job script channel settings reply budget stage =
      job_result channel.async_spec.enabled
        (handles script "poll_request" && handles script "poll_response") channel settings reply
        budget stage

  unfoldable pub respond : Value → Exec (World St) Value
  unfolding call_phase
  respond reply_payload = do
    reset_plan
    result ← call_phase o reply_payload "response"
    if is_json result then pure result else raise (script_runtime_error "response")

  unfoldable pub execute :
      CompiledScript
      → ChannelSpec
      → Settings
      → Value
      → Option Budget
      → Option String
      → Exec (World St) Value
  unfolding authenticate call_phase obtain job_result respond
  execute script channel settings client_payload budget stage = do
    authenticate script client_payload
    upstream_body ← call_phase o client_payload "request"
    local_result ← gets (λ w. w.ctx.plan.local_result)
    reply ← obtain local_result channel settings client_payload upstream_body budget stage
    reply_payload ← finish_job script channel settings reply budget stage
    respond reply_payload
