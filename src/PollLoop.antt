-- ===== src/PollLoop.antt =====
-- adapter/executor.py: the poll loop of a channel with X-Async.
use image_adapter.Base.{
  ℕ, zero, suc, String, Option, none, some, ◌⊎◌, inl, inr, if◌then◌else◌, or_else,
}
use image_adapter.Errors.{
  Result, ok, err, crash, script_runtime_error, upstream_error, poll_timeout_error,
}
use image_adapter.Text.{take}
use image_adapter.Budget.{Budget}
use image_adapter.Float.{Float}
use image_adapter.Settings.{Settings}
use image_adapter.Channel.{ChannelSpec}
use image_adapter.Value
use image_adapter.Value.{Value, Bytes, dict, Fields, get, get_or_null, value_eq, is_json, is_dict}
use image_adapter.Transport.{UpstreamReply, payload, text_of}
use image_adapter.Engine.{Outside, World, Exec, ◌>>=◌, ◌>>◌, raise, gets, modify, lift, reset_plan}
use image_adapter.Upstream.{capped, passed, call_phase, check_budget, do_upstream}

module _ (o : Outside) where
  open o use {St, clock, sleep, show}

  -- the test of one turn's verdict: the job's result, or the handle of the next turn
  unfoldable pub judge : Value → UpstreamReply → Value → Result (Value ⊎ Value)
  unfolding get
  judge handle reply (dict verdict) =
      if Value.truthy (get_or_null "error" verdict)
      then err (
          upstream_error "upstream_job_failed" 502 none
            (take 200 (text_of show (get_or_null "error" verdict))))
      else if Value.truthy (get_or_null "done" verdict)
      then ok (inl (or_else (get "payload" verdict) (payload reply)))
      else ok (inr (or_else (get "payload" verdict) handle))
  judge handle reply v = err (script_runtime_error "poll_response")

  abbrev pub check_deadline : Float → ℕ → Exec (World St) (Unit {0})
  check_deadline timeout start w =
      if passed timeout start (clock w.outside) then (err poll_timeout_error, w) else (ok tt, w)

  -- one turn of `_run_poll_loop`, after its tests
  unfoldable pub poll_once :
      ChannelSpec
      → Settings
      → Option Budget
      → Option String
      → Value
      → Exec (World St) (Value ⊎ Value)
  unfolding call_phase do_upstream judge
  poll_once channel settings budget stage handle = do
    now ← gets (λ w. clock w.outside)
    let interval = capped budget now channel.async_spec.poll_interval
    modify (λ w. record w { outside = sleep interval w.outside })
    reset_plan
    poll_body ← call_phase o handle "poll_request"
    reply ←
        do_upstream o channel settings poll_body none budget stage
          (some settings.poll_request_timeout)
    verdict ← call_phase o (payload reply) "poll_response"
    lift (judge handle reply verdict)

  -- what follows a turn
  unfoldable pub after_turn :
      (Value → Exec (World St) Value) → Result (Value ⊎ Value) → Exec (World St) Value
  after_turn again (ok (inl result)) w = (ok result, w)
  after_turn again (ok (inr next)) w = again next w
  after_turn again (err e) w = (err e, w)
  after_turn again crash w = (crash, w)

  -- _run_poll_loop from its second statement on: `left` is `settings.poll_max_attempts - attempts`,
  -- and `start` the clock when the loop was entered
  unfoldable pub poll_loop :
      ChannelSpec → Settings → Option Budget → Option String → ℕ → ℕ → Value → Exec (World St) Value
  unfolding poll_once after_turn
  poll_loop channel settings budget stage start zero handle = do
    check_deadline channel.async_spec.timeout start
    check_budget o budget stage
    raise poll_timeout_error
  poll_loop channel settings budget stage start (suc left) handle = do
    check_deadline channel.async_spec.timeout start
    check_budget o budget stage
    λ w.
        after_turn (poll_loop channel settings budget stage start left)
          (poll_once channel settings budget stage handle w).0
          (poll_once channel settings budget stage handle w).1

  -- _run_poll_loop
  unfoldable pub run_poll_loop :
      ChannelSpec → Settings → UpstreamReply → Option Budget → Option String → Exec (World St) Value
  unfolding poll_loop
  run_poll_loop channel settings first budget stage = do
    start ← gets (λ w. clock w.outside)
    poll_loop channel settings budget stage start settings.poll_max_attempts (payload first)
