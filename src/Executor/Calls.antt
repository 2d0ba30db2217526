-- ===== src/Executor/Calls.antt =====
-- What one upstream call logs, and when the engine may send a second.
use image_adapter.Base.{
  ℕ, ◌≡◌, refl, sym, ap, String, Bool, true, false, ◌&&◌, ◌⊎◌, inl, inr, Option, none, some, List,
  [], ◌∷◌, ◌++◌, leb, ltb, arith, Bool-cases, Option-cases, Assoc, is_empty,
}
use mathlib.Core.List.{append-nil}
use image_adapter.Errors.{AdapterError, Result, ok, err, crash, upstream_error}
use image_adapter.Url.{urlparse}
use image_adapter.Budget.{Budget}
use image_adapter.Float.{Float}
use image_adapter.Settings.{Settings}
use image_adapter.Channel.{ChannelSpec}
use image_adapter.ProxyPlan.{covers}
use image_adapter.Value.{Value, Bytes}
use image_adapter.Plan.{RequestPlan}
use image_adapter.Transport.{
  UpstreamReply, Request, Reading, read, too_large, timed_out, lost, read_capped, add_query,
  merge_url, with_content, proxy_of, draft, authorised, text_or, raise_for_status, parse_body,
  build_request,
}
use image_adapter.Engine.{
  Outside, Event, call, Exchange, no_answer, no_connection, replied, Response, World, Exec,
}
use image_adapter.Upstream.{
  accept, take_body, time_out, receive, send, do_upstream, timeout_error, spent, float_or, capped,
}
use image_adapter.Executor.{request_was_refused}
use image_adapter.Executor.Trace.{Keeps}

-- an AdapterError
abbrev pub is_err : {A : Type 0} → Result A → Bool
is_err (ok a) = false
is_err (err e) = true
is_err crash = false

is_err->>= :
    {A B : Type 0} (m : Result A) (f : A → Result B)
    → is_err m ≡ false
    → ((a : A) → is_err (f a) ≡ false)
    → is_err (image_adapter.Errors.◌>>=◌ m f) ≡ false
is_err->>= (ok a) f h k = k a
is_err->>= (err e) f h k = h
is_err->>= crash f h k = h

is_err-add_query : (url : String) (query : Assoc String) → is_err (add_query url query) ≡ false
unfolding add_query
is_err-add_query url query = elim (Bool-cases (is_empty query)) [
  | inl e ↦ rw e refl
  | inr e ↦ elim (Option-cases (urlparse url)) [
    | inl f ↦ rw (e, f) refl
    | inr (parts, f) ↦ rw (e, f) refl
  ]
]

is_err-with_content :
    (show : Value → String) (plan : RequestPlan) (r : Request)
    → is_err (with_content show plan r) ≡ false
unfolding with_content
is_err-with_content show plan r = grind (arith, is_err-add_query)

is_err-proxy_of : (covered : Option Bool) (url : String) → is_err (proxy_of covered url) ≡ false
is_err-proxy_of none url = refl
is_err-proxy_of (some true) url = refl
is_err-proxy_of (some false) url = refl

pub is_err-build_request :
    (show : Value → String) (channel : ChannelSpec) (plan : RequestPlan) (body : Value)
    (default_url : Option String)
    → is_err (build_request show channel plan body default_url) ≡ false
unfolding build_request merge_url
is_err-build_request show channel plan body default_url =
    is_err->>= (add_query (text_or plan.url (text_or default_url channel.upstream_url)) plan.query)
      _ (is_err-add_query _ _)
      (λ base.
        is_err->>= (add_query base (authorised channel plan body).query) _ (is_err-add_query _ _)
          (λ url.
            is_err->>= (proxy_of (covers channel.proxy url) channel.proxy.url) _
              (is_err-proxy_of (covers channel.proxy url) channel.proxy.url)
              (λ proxy. is_err-with_content show plan (draft channel plan body url proxy))))

pub Result-cases :
    {A : Type 0} (r : Result A)
    → (((a : A) × (r ≡ ok a)) ⊎ ((e : AdapterError) × (r ≡ err e))) ⊎ (r ≡ crash)
Result-cases (ok a) = inl (inl (a, refl))
Result-cases (err e) = inl (inr (e, refl))
Result-cases crash = inr refl

-- a refusal: an error that carries a 4xx of the vendor
abbrev pub refusal : {A : Type 0} → Result A → Bool
refusal (ok a) = false
refusal (err e) = request_was_refused e.upstream_status
refusal crash = false

abbrev pub is_ok : {A : Type 0} → Result A → Bool
is_ok (ok a) = true
is_ok (err e) = false
is_ok crash = false

-- an answer that says the request was refused: a response with a 4xx
pub data IsRefused : Exchange → Type 0 where
  refused :
      (resp : Response)
      → (leb 400 resp.status && ltb resp.status 500) ≡ true
      → IsRefused (replied resp)

-- what `receive` may return on an answer
pub record IsReading {A : Type 0} (x : Exchange) (r : Result A) : Type 0 where
  pub refused_by : refusal r ≡ true → IsRefused x

refusal-raise_for_status :
    (show : Value → String) (status : ℕ) (parsed : Option Value) (e : AdapterError)
    → raise_for_status show status parsed ≡ err e
    → request_was_refused e.upstream_status ≡ true
    → (leb 400 status && ltb status 500) ≡ true
unfolding raise_for_status request_was_refused
refusal-raise_for_status show status parsed e h k = ground arith

-- What one upstream call may do: end before it sends anything, or send one request; it returns a
-- reply only if the request was answered, and ends in a refusal only if the answer was one.
pub data OneCall : Result UpstreamReply → List Event → Type 0 where
  unsent : (r : Result UpstreamReply) → is_ok r ≡ false → refusal r ≡ false → OneCall r []
  sent :
      (r : Result UpstreamReply) (q : Request) (x : Exchange)
      → IsReading x r
      → OneCall r (call q x ∷ [])

module _ (o : Outside) where
  open o use {St, clock, loads, show}

  -- what `receive` may do on an answer
  abbrev Reads : Exchange → Exec (World St) UpstreamReply → Type 0
  Reads x m = (w : World St) → ((m w).1.events ≡ w.events) × IsReading x (m w).0

  refusal-timeout_error :
      (budget : Option Budget) (stage : Option String) (now : ℕ)
      → request_was_refused (timeout_error o budget stage now).upstream_status ≡ false
  unfolding request_was_refused
  refusal-timeout_error budget none now = ground arith
  refusal-timeout_error budget (some stage) now = ground arith

  time_out-Reads :
      (x : Exchange) (budget : Option Budget) (stage : Option String)
      → Reads x (time_out o budget stage)
  unfolding time_out
  time_out-Reads x budget stage w = (
    refl,
    record {
      refused_by =
          λ h. absurd (ground (arith, h, refusal-timeout_error budget stage (clock w.outside)));
    },
  )

  accept-Reads :
      (resp : Response) (body : Bytes) (parsed : Option Value)
      → Reads (replied resp) (accept o resp body parsed)
  unfolding accept
  accept-Reads resp body none w = elim (Result-cases (raise_for_status show resp.status none)) [
    | inl (inl (u, e)) ↦ rw e (refl, record { refused_by = λ h. cc })
    | inl (inr (x, e)) ↦ rw e (
      refl,
      record {
        refused_by = λ h. refused resp (refusal-raise_for_status show resp.status none x e h);
      },
    )
    | inr e ↦ rw e (refl, record { refused_by = λ h. cc })
  ]
  accept-Reads resp body (some v) w =
      elim (Result-cases (raise_for_status show resp.status (some v))) [
        | inl (inl (u, e)) ↦ rw e (refl, record { refused_by = λ h. cc })
        | inl (inr (x, e)) ↦ rw e (
          refl,
          record {
            refused_by =
                λ h. refused resp (refusal-raise_for_status show resp.status (some v) x e h);
          },
        )
        | inr e ↦ rw e (refl, record { refused_by = λ h. cc })
      ]

  take_body-Reads :
      (budget : Option Budget) (stage : Option String) (resp : Response) (r : Reading)
      → Reads (replied resp) (take_body o budget stage resp r)
  unfolding take_body request_was_refused
  take_body-Reads budget stage resp (read body) w =
      accept-Reads resp body (parse_body loads body resp.content_type) w
  take_body-Reads budget stage resp too_large w = (refl, record { refused_by = λ h. cc })
  take_body-Reads budget stage resp timed_out w = time_out-Reads (replied resp) budget stage w
  take_body-Reads budget stage resp lost w = (refl, record { refused_by = λ h. cc })

  pub receive-Reads :
      (settings : Settings) (budget : Option Budget) (stage : Option String) (x : Exchange)
      → Reads x (receive o settings budget stage x)
  unfolding receive request_was_refused
  receive-Reads settings budget stage no_answer w = time_out-Reads no_answer budget stage w
  receive-Reads settings budget stage no_connection w = (refl, record { refused_by = λ h. cc })
  receive-Reads settings budget stage (replied resp) w =
      take_body-Reads budget stage resp
        (read_capped resp.content_length resp.body settings.max_upstream_bytes) w

  pub do_upstream-Keeps :
      (channel : ChannelSpec) (settings : Settings) (body : Value) (default_url : Option String)
      (budget : Option Budget) (stage : Option String) (default_timeout : Option Float)
      → Keeps OneCall (do_upstream o channel settings body default_url budget stage default_timeout)
  unfolding do_upstream send request_was_refused
  do_upstream-Keeps channel settings body default_url budget stage default_timeout w =
      elim (Bool-cases (spent budget (clock w.outside))) [
        | inl over ↦ rw over ([], sym (append-nil w.events), unsent _ refl refl)
        | inr time_left ↦
            elim (Result-cases (build_request show channel w.ctx.plan body default_url)) [
              | inl (inl (q, e)) ↦
                  let limit = capped budget (clock w.outside) (
                    float_or w.ctx.plan.timeout
                      (float_or default_timeout settings.upstream_timeout)) in
                  let (x, st) = o.exchange q limit w.outside in
                  let w1 = record w { outside = st; events = w.events ++ call q x ∷ [] } in
                  rw (time_left, e)
                    (
                      call q x ∷ [],
                      (receive-Reads settings budget stage x w1).0,
                      sent _ q x (receive-Reads settings budget stage x w1).1,
                    )
              | inl (inr (x, e)) ↦ absurd (
                  ground (
                    arith,
                    e,
                    ap is_err e,
                    is_err-build_request show channel w.ctx.plan body default_url,
                  ))
              | inr e ↦ rw (time_left, e) ([], sym (append-nil w.events), unsent _ refl refl)
            ]
      ]
