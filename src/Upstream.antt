-- ===== src/Upstream.antt =====
-- adapter/executor.py: a phase of the script (`_call_phase`) and one call of the upstream
-- (`_do_upstream`).
use image_adapter.Base.{
  ℕ, ◌+◌, String, Bool, true, false, Option, none, some, [], ◌∷◌, ◌++◌, leb, if◌then◌else◌, or_else,
}
use image_adapter.Errors.{
  AdapterError, Result, ok, err, script_runtime_error, script_timeout_error, upstream_error,
  pipeline_timeout_error, stage_timeout_error,
}
use image_adapter.Budget
use image_adapter.Budget.{Budget}
use image_adapter.Float.{Float, nan, neg, fin, inf, truthy}
use image_adapter.Settings.{Settings}
use image_adapter.Channel.{ChannelSpec}
use image_adapter.Value.{Value, Bytes}
use image_adapter.Transport.{
  UpstreamReply, payload, Request, Reading, read, too_large, timed_out, lost, read_capped,
  parse_body, raise_for_status, build_request,
}
use image_adapter.Engine.{
  Outcome, returned, overran, raised, failed, Response, Exchange, no_answer, no_connection, replied,
  Outside, phase, call, World, Exec, ◌>>=◌, ◌>>◌, pure, raise, gets, modify, lift,
}

-- `x or d` of an optional number
abbrev pub float_or : Option Float → Float → Float
float_or none d = d
float_or (some x) d = if truthy x then x else d

-- a deadline `start + timeout` that has come
abbrev pub passed : Float → ℕ → ℕ → Bool
passed nan start now = false
passed neg start now = true
passed (fin t) start now = leb (start + t) now
passed inf start now = false

abbrev pub spent : Option Budget → ℕ → Bool
spent none now = false
spent (some b) now = Budget.exhausted b now

abbrev pub capped : Option Budget → ℕ → Float → Float
capped none now x = x
capped (some b) now x = Budget.cap b now x

module _ (o : Outside) where
  open o use {St, clock, transform, exchange, sleep, show, loads}

  abbrev pub phase_result : String → Outcome → Result Value
  phase_result name (returned v) = ok v
  phase_result name overran = err (script_timeout_error name)
  phase_result name (raised e) = err e
  phase_result name failed = err (script_runtime_error name)

  -- _call_phase
  unfoldable pub call_phase : Value → String → Exec (World St) Value
  call_phase payload name w =
      let (outcome, ctx, st) = transform w.ctx payload name w.outside in
      (
        phase_result name outcome,
        record w { ctx = ctx; outside = st; events = w.events ++ phase name ∷ [] },
      )

  -- the error for a call that ran out of time
  abbrev pub timeout_error : Option Budget → Option String → ℕ → AdapterError
  timeout_error budget stage now =
      if spent budget now then pipeline_timeout_error (or_else stage "") else elim stage [
        | some name ↦ stage_timeout_error name
        | none ↦ upstream_error "upstream_timeout" 504 none ""
      ]

  -- the end of `_do_upstream`, for a body that was read in full: a body that is not JSON is kept for
  -- the script
  unfoldable pub accept : Response → Bytes → Option Value → Exec (World St) UpstreamReply
  accept resp body none = do
    lift (raise_for_status show resp.status none)
    modify (λ w. record w { ctx = record w.ctx { upstream_raw = some body } })
    pure (record { status = resp.status; json = none; raw = some body; headers = resp.headers })
  accept resp body (some v) = do
    lift (raise_for_status show resp.status (some v))
    pure (record { status = resp.status; json = some v; raw = none; headers = resp.headers })

  abbrev pub unreachable : AdapterError
  unreachable = upstream_error "upstream_unreachable" 502 none ""

  unfoldable pub time_out : Option Budget → Option String → Exec (World St) UpstreamReply
  time_out budget stage w = (err (timeout_error budget stage (clock w.outside)), w)

  -- what follows the bounded read
  unfoldable pub take_body :
      Option Budget → Option String → Response → Reading → Exec (World St) UpstreamReply
  unfolding accept time_out
  take_body budget stage resp (read body) =
      accept resp body (parse_body loads body resp.content_type)
  take_body budget stage resp too_large =
      raise (upstream_error "upstream_body_too_large" 502 none "")
  take_body budget stage resp timed_out = time_out budget stage
  take_body budget stage resp lost = raise unreachable

  -- what follows the exchange
  unfoldable pub receive :
      Settings → Option Budget → Option String → Exchange → Exec (World St) UpstreamReply
  unfolding read_capped take_body time_out
  receive settings budget stage no_answer = time_out budget stage
  receive settings budget stage no_connection = raise unreachable
  receive settings budget stage (replied resp) =
      take_body budget stage resp
        (read_capped resp.content_length resp.body settings.max_upstream_bytes)

  -- ctx.http.request, for at most `limit` seconds
  unfoldable pub send : Request → Float → Exec (World St) Exchange
  send request limit w =
      let (answer, st) = exchange request limit w.outside in
      (ok answer, record w { outside = st; events = w.events ++ call request answer ∷ [] })

  abbrev pub check_budget : Option Budget → Option String → Exec (World St) (Unit {0})
  check_budget budget stage w =
      if spent budget (clock w.outside)
      then (err (pipeline_timeout_error (or_else stage "")), w)
      else (ok tt, w)

  -- _do_upstream
  unfoldable pub do_upstream :
      ChannelSpec
      → Settings
      → Value
      → Option String
      → Option Budget
      → Option String
      → Option Float
      → Exec (World St) UpstreamReply
  unfolding build_request send receive
  do_upstream channel settings body default_url budget stage default_timeout = do
    check_budget budget stage
    plan ← gets (λ w. w.ctx.plan)
    request ← lift (build_request show channel plan body default_url)
    now ← gets (λ w. clock w.outside)
    let timeout = float_or plan.timeout (float_or default_timeout settings.upstream_timeout)
    answer ← send request (capped budget now timeout)
    receive settings budget stage answer
