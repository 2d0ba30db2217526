-- ===== src/Executor/Retry.antt =====
-- When the engine sends a request a second time.
use image_adapter.Base.{
  ◌≡◌, ◌∙◌, refl, sym, ap, String, true, false, if◌then◌else◌, inl, inr, Option, none, some, List,
  [], ◌∷◌, ◌++◌, Bool-cases,
}
use mathlib.Core.List.{append_assoc, append-nil}
use image_adapter.Errors.{AdapterError, Result, ok, err, crash}
use image_adapter.Budget.{Budget}
use image_adapter.Settings.{Settings}
use image_adapter.Channel.{ChannelSpec}
use image_adapter.Value.{Value, Bytes, value_eq}
use image_adapter.Transport.{UpstreamReply, Request}
use image_adapter.Engine.{Outside, Event, phase, call, Exchange, World, Exec, ◌>>=◌, raise, cleared}
use image_adapter.Upstream.{call_phase, do_upstream}
use image_adapter.Executor.{
  request_was_refused, answer_refusal, on_refusal, call_upstream, sent_body, obtain,
}
use image_adapter.Executor.Trace.{
  Keeps, RunsPhase, ran, Then, went_on, stopped, crashed, Keeps->>=, Keeps-weaken, call_phase-Keeps,
}
use image_adapter.Executor.Calls.{
  is_ok, refusal, IsRefused, IsReading, OneCall, unsent, sent, do_upstream-Keeps,
}

-- What follows a refusal: a request phase, and at most one call.
pub data SecondTry : Result UpstreamReply → List Event → Type 0 where
  kept : (r : Result UpstreamReply) → is_ok r ≡ false → SecondTry r (phase "request" ∷ [])
  resent :
      (r : Result UpstreamReply) (q : Request) (x : Exchange)
      → SecondTry r (phase "request" ∷ call q x ∷ [])

-- What follows an answer to the first request: its result, or a second try if that is a refusal.
pub data Answered (q : Request) (x : Exchange) (first : Result UpstreamReply)
    : Result UpstreamReply → List Event → Type 0 where
  taken : refusal first ≡ false → Answered q x first first (call q x ∷ [])
  again :
      (r : Result UpstreamReply) (es : List Event)
      → refusal first ≡ true
      → IsRefused x
      → SecondTry r es
      → Answered q x first r (call q x ∷ es)

-- What the engine does between the request phase and the polling: nothing, with the script's own
-- result or a failure before the call; one call, which was not refused; or one call that was
-- refused, with what follows a refusal.
pub data Obtained : Result UpstreamReply → List Event → Type 0 where
  unasked : (r : Result UpstreamReply) → refusal r ≡ false → Obtained r []
  once :
      (r : Result UpstreamReply) (q : Request) (x : Exchange)
      → refusal r ≡ false
      → Obtained r (call q x ∷ [])
  tried_again :
      (r : Result UpstreamReply) (q : Request) (x : Exchange) (es : List Event)
      → IsRefused x
      → SecondTry r es
      → Obtained r (call q x ∷ es)

-- What follows the second request phase.
data Resent : Result UpstreamReply → List Event → Type 0 where
  gave_up : (r : Result UpstreamReply) → is_ok r ≡ false → Resent r []
  called : (r : Result UpstreamReply) (q : Request) (x : Exchange) → Resent r (call q x ∷ [])

Resent-OneCall : (r : Result UpstreamReply) (es : List Event) → OneCall r es → Resent r es
Resent-OneCall r es (unsent u n m) = gave_up u n
Resent-OneCall r es (sent u q x h) = called u q x

SecondTry-Then :
    (r : Result UpstreamReply) (es : List Event)
    → Then (RunsPhase "request") Resent r es
    → SecondTry r es
SecondTry-Then r es (went_on a fs gs s (ran t) (gave_up u n)) = kept u n
SecondTry-Then r es (went_on a fs gs s (ran t) (called u q x)) = resent u q x
SecondTry-Then r es (stopped e fs (ran t)) = kept (err e) refl
SecondTry-Then r es (crashed fs (ran t)) = kept crash refl

module _ (o : Outside) where
  open o use {St}

  pub answer_refusal-Keeps :
      (channel : ChannelSpec) (settings : Settings) (client_payload : Value)
      (budget : Option Budget) (stage : Option String) (body : Value) (e : AdapterError)
      → Keeps SecondTry (answer_refusal o channel settings client_payload budget stage body e)
  unfolding answer_refusal
  answer_refusal-Keeps channel settings client_payload budget stage body e w =
      let continue : Value → Exec (World St) UpstreamReply = λ again.
        if value_eq again body
        then raise e
        else do_upstream o channel settings again none budget stage none in
      Keeps-weaken (Then (RunsPhase "request") Resent) SecondTry
        (call_phase o client_payload "request" >>= continue) SecondTry-Then
        (Keeps->>= (RunsPhase "request") Resent (call_phase o client_payload "request") continue
          (call_phase-Keeps o client_payload "request")
          (λ again w2. elim (Bool-cases (value_eq again body)) [
            | inl same ↦ rw same ([], sym (append-nil w2.events), gave_up (err e) refl)
            | inr other ↦ rw other (
                Keeps-weaken OneCall Resent
                  (do_upstream o channel settings again none budget stage none) Resent-OneCall
                  (do_upstream-Keeps o channel settings again none budget stage none) w2)
          ]))
        (cleared
          (record w { ctx = record w.ctx { upstream_error = some (e.detail, e.upstream_status) } }))

  pub on_refusal-Answered :
      (again : AdapterError → Exec (World St) UpstreamReply) (first : Result UpstreamReply)
      (q : Request) (x : Exchange) (v w : World St)
      → w.events ≡ v.events ++ call q x ∷ []
      → IsReading x first
      → ((e : AdapterError) → Keeps SecondTry (again e))
      → (fs : List Event) × ((on_refusal o again first w).1.events ≡ v.events ++ fs)
        × Answered q x first (on_refusal o again first w).0 fs
  unfolding on_refusal
  on_refusal-Answered go (ok reply) q x v w e r h = (call q x ∷ [], e, taken refl)
  on_refusal-Answered go crash q x v w e r h = (call q x ∷ [], e, taken refl)
  on_refusal-Answered go (err a) q x v w e r h =
      elim (Bool-cases (request_was_refused a.upstream_status)) [
        | inl is ↦
            let (fs, e2, s) = h a w in
            rw is (
              call q x ∷ fs,
              e2 ∙ ap (λ l. l ++ fs) e ∙ append_assoc v.events (call q x ∷ []) fs,
              again _ fs is (r.refused_by is) s,
            )
        | inr not_so ↦ rw not_so (call q x ∷ [], e, taken not_so)
      ]

  Obtained-Answered :
      (q : Request) (x : Exchange) (first r : Result UpstreamReply) (es : List Event)
      → Answered q x first r es
      → Obtained r es
  Obtained-Answered q x first r es (taken h) = once first q x h
  Obtained-Answered q x first r es (again t fs is answer s) = tried_again t q x fs answer s

  on_refusal-Keeps :
      (again : AdapterError → Exec (World St) UpstreamReply) (first : Result UpstreamReply)
      (v w : World St) (es : List Event)
      → w.events ≡ v.events ++ es
      → OneCall first es
      → ((e : AdapterError) → Keeps SecondTry (again e))
      → (fs : List Event) × ((on_refusal o again first w).1.events ≡ v.events ++ fs)
        × Obtained (on_refusal o again first w).0 fs
  unfolding on_refusal
  on_refusal-Keeps go first v w es e (sent u q x r) h =
      let (fs, e2, p) = on_refusal-Answered go u q x v w e r h in
      (fs, e2, Obtained-Answered q x u (on_refusal o go u w).0 fs p)
  on_refusal-Keeps go (ok reply) v w es e (unsent u n m) h = absurd (cc)
  on_refusal-Keeps go (err a) v w es e (unsent u n m) h =
      let no : request_was_refused a.upstream_status ≡ false = m in rw no (es, e, unasked (err a) m)
  on_refusal-Keeps go crash v w es e (unsent u n m) h = (es, e, unasked crash refl)

  call_upstream-Keeps :
      (channel : ChannelSpec) (settings : Settings) (client_payload upstream_body : Value)
      (budget : Option Budget) (stage : Option String)
      → Keeps Obtained (call_upstream o channel settings client_payload upstream_body budget stage)
  unfolding call_upstream
  call_upstream-Keeps channel settings client_payload upstream_body budget stage w =
      let body = sent_body o channel w.ctx.plan upstream_body in
      let first = do_upstream o channel settings upstream_body none budget stage none in
      let (es, e, p) =
        do_upstream-Keeps o channel settings upstream_body none budget stage none w in
      on_refusal-Keeps (answer_refusal o channel settings client_payload budget stage body)
        (first w).0 w (first w).1 es e p
        (answer_refusal-Keeps channel settings client_payload budget stage body)

  -- Between the request phase and the polling the engine logs no call or one call, and does not end in a
  -- refusal by the vendor; or it logs a call that was refused, with what follows a refusal.
  pub obtain-Obtained :
      (local_result : Option Bytes) (channel : ChannelSpec) (settings : Settings)
      (client_payload upstream_body : Value) (budget : Option Budget) (stage : Option String)
      (w : World St)
      → (es : List Event) × ((obtain o local_result channel settings client_payload upstream_body
            budget stage w).1.events
          ≡ w.events ++ es)
        × Obtained
            (obtain o local_result channel settings client_payload upstream_body budget stage w).0
            es
  unfolding obtain request_was_refused
  obtain-Obtained none channel settings client_payload upstream_body budget stage w =
      call_upstream-Keeps channel settings client_payload upstream_body budget stage w
  obtain-Obtained (some content) channel settings client_payload upstream_body budget stage w =
      elim (Bool-cases channel.async_spec.enabled) [
        | inl job ↦ rw job ([], sym (append-nil w.events), unasked _ refl)
        | inr direct ↦ rw direct ([], sym (append-nil w.events), unasked _ refl)
      ]
