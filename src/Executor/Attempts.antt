-- ===== src/Executor/Attempts.antt =====
-- Which request the engine sends between the request phase and the polling, and when it sends none.
use image_adapter.Base.{
  ◌≡◌, refl, sym, ap, String, true, false, inl, inr, Option, none, some, List, [], ◌∷◌, ◌++◌,
  or_else, arith, Bool-cases,
}
use mathlib.Core.List.{append-nil}
use image_adapter.Errors.{Result, ok, err, crash, channel_config_error, pipeline_timeout_error}
use image_adapter.Budget.{Budget}
use image_adapter.Float.{Float}
use image_adapter.Settings.{Settings}
use image_adapter.Channel.{ChannelSpec}
use image_adapter.Value.{Value, Bytes}
use image_adapter.Transport.{UpstreamReply, Request, build_request}
use image_adapter.Engine.{Outside, Event, call, World}
use image_adapter.Upstream.{do_upstream, send, receive, spent, capped, float_or}
use image_adapter.Executor.{
  request_was_refused, answer_refusal, on_refusal, call_upstream, sent_body, local_reply, obtain,
}
use image_adapter.Executor.Calls.{is_err, is_err-build_request, Result-cases, receive-Reads}
use image_adapter.Executor.Retry.{Answered, answer_refusal-Keeps, on_refusal-Answered}

module _ (o : Outside) (channel : ChannelSpec) (settings : Settings) (budget : Option Budget)
    (stage : Option String) where
  open o use {St, clock, show, exchange}

  -- how long the first request may take
  abbrev pub limit_of : World St → Float
  limit_of w =
      capped budget (clock w.outside)
        (float_or w.ctx.plan.timeout (float_or none settings.upstream_timeout))

  -- the world once a request was answered
  abbrev pub answered : Request → World St → World St
  answered q w = record w {
    outside = (exchange q (limit_of w) w.outside).1;
    events = w.events ++ call q (exchange q (limit_of w) w.outside).0 ∷ [];
  }

  -- what an answer is read as
  abbrev pub first_result : Request → World St → Result UpstreamReply
  first_result q w =
      (receive o settings budget stage (exchange q (limit_of w) w.outside).0 (answered q w)).0

  -- What the engine does between the request phase and the polling.
  pub data Attempts (local_result : Option Bytes) (body : Value) (w : World St)
      : Result UpstreamReply → List Event → Type 0 where
    own :
        (content : Bytes)
        → local_result ≡ some content
        → channel.async_spec.enabled ≡ false
        → Attempts local_result body w (ok (local_reply o content)) []
    own_job :
        (content : Bytes)
        → local_result ≡ some content
        → channel.async_spec.enabled ≡ true
        → Attempts local_result body w (err (channel_config_error "X-Async")) []
    too_late :
        local_result ≡ none
        → spent budget (clock w.outside) ≡ true
        → Attempts local_result body w (err (pipeline_timeout_error (or_else stage ""))) []
    unbuilt :
        local_result ≡ none
        → spent budget (clock w.outside) ≡ false
        → build_request show channel w.ctx.plan body none ≡ crash
        → Attempts local_result body w crash []
    attempted :
        (q : Request) (r : Result UpstreamReply) (es : List Event)
        → local_result ≡ none
        → spent budget (clock w.outside) ≡ false
        → build_request show channel w.ctx.plan body none ≡ ok q
        → Answered q (exchange q (limit_of w) w.outside).0 (first_result q w) r es
        → Attempts local_result body w r es

  call_upstream-Attempts :
      (client_payload body : Value) (w : World St)
      → (es : List Event) × ((call_upstream o channel settings client_payload body budget stage
            w).1.events
          ≡ w.events ++ es)
        × Attempts none body w
            (call_upstream o channel settings client_payload body budget stage w).0
            es
  unfolding call_upstream do_upstream send on_refusal request_was_refused
  call_upstream-Attempts client_payload body w =
      elim (Bool-cases (spent budget (clock w.outside))) [
        | inl over ↦ rw over ([], sym (append-nil w.events), too_late refl over)
        | inr time_left ↦ elim (Result-cases (build_request show channel w.ctx.plan body none)) [
          | inl (inl (q, e)) ↦
              let go =
                answer_refusal o channel settings client_payload budget stage
                  (sent_body o channel w.ctx.plan body) in
              let x = (exchange q (limit_of w) w.outside).0 in
              let (same, reading) = receive-Reads o settings budget stage x (answered q w) in
              let (es, logged, p) =
                on_refusal-Answered o go (first_result q w) q x w
                  (receive o settings budget stage x (answered q w)).1 same reading
                  (answer_refusal-Keeps o channel settings client_payload budget stage
                    (sent_body o channel w.ctx.plan body)) in
              rw (time_left, e) (es, logged, attempted q _ es refl time_left e p)
          | inl (inr (x, e)) ↦ absurd (
              ground
                (arith, e, ap is_err e, is_err-build_request show channel w.ctx.plan body none))
          | inr e ↦ rw (time_left, e) ([], sym (append-nil w.events), unbuilt refl time_left e)
        ]
      ]

  -- Between the request phase and the polling the engine sends no request only with the script's own
  -- result (which a channel with X-Async refuses), if the budget is spent, or if the request cannot be
  -- built. Else it sends the one that is built from the plan, and its result is what the answer is read
  -- as, unless that is a refusal of the vendor by a 4xx: then it runs the request phase again and sends at
  -- most one more.
  pub obtain-Attempts :
      (local_result : Option Bytes) (client_payload body : Value) (w : World St)
      → (es : List Event) × ((obtain o local_result channel settings client_payload body budget
            stage w).1.events
          ≡ w.events ++ es)
        × Attempts local_result body w
            (obtain o local_result channel settings client_payload body budget stage w).0
            es
  unfolding obtain
  obtain-Attempts none client_payload body w = call_upstream-Attempts client_payload body w
  obtain-Attempts (some content) client_payload body w =
      elim (Bool-cases channel.async_spec.enabled) [
        | inl job ↦ simp job ([], sym (append-nil w.events), own_job content refl job)
        | inr direct ↦ simp direct ([], sym (append-nil w.events), own content refl direct)
      ]
