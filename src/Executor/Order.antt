-- ===== src/Executor/Order.antt =====
-- The order of the phases and the calls in the single-call path.
use image_adapter.Base.{
  ℕ, ◌≡◌, refl, sym, String, Bool, true, false, ◌&&◌, if◌then◌else◌, inl, inr, Option, List, [],
  ◌∷◌, ◌++◌, Bool-cases,
}
use mathlib.Core.List.{append-nil}
use image_adapter.Errors.{AdapterError, Result, ok, err, crash, script_runtime_error}
use image_adapter.Budget.{Budget}
use image_adapter.Settings.{Settings}
use image_adapter.Channel.{ChannelSpec}
use image_adapter.Value.{Value, is_json}
use image_adapter.Transport.{UpstreamReply, payload}
use image_adapter.Engine.{Outside, Event, phase, World, Exec, ◌>>=◌, raise, modify, cleared, pure}
use image_adapter.Upstream.{call_phase}
use image_adapter.PollLoop.{run_poll_loop}
use image_adapter.Executor.{
  CompiledScript, handles, authenticate, obtain, job_result, finish_job, respond, execute,
  emit_headers,
}
use image_adapter.Executor.Trace.{
  Keeps, Silent, silent, RunsPhase, ran, Then, went_on, stopped, crashed, Keeps->>=, Keeps-weaken,
  Keeps-Silent, call_phase-Keeps,
}
use image_adapter.Executor.Calls.{is_ok}
use image_adapter.Executor.Retry.{Obtained, obtain-Obtained}
use image_adapter.Executor.Run.{Turns, poll_loop-Turns}

-- The auth phase, for a script that declares one.
pub data Authenticated (script : CompiledScript) : Result (Unit {0}) → List Event → Type 0 where
  no_auth : handles script "auth" ≡ false → Authenticated script (ok tt) []
  auth_ran :
      (r : Result (Unit {0}))
      → handles script "auth" ≡ true
      → Authenticated script r (phase "auth" ∷ [])

-- The poll loop, for a channel with X-Async.
pub data JobFinished (channel : ChannelSpec) (n : ℕ) : Result Value → List Event → Type 0 where
  no_job : (v : Value) → channel.async_spec.enabled ≡ false → JobFinished channel n (ok v) []
  undeclared :
      (e : AdapterError) → channel.async_spec.enabled ≡ true → JobFinished channel n (err e) []
  job :
      (r : Result Value) (es : List Event)
      → channel.async_spec.enabled ≡ true
      → Turns n r es
      → JobFinished channel n r es

-- The response phase: only a JSON object or array is a result.
pub data Responded : Result Value → List Event → Type 0 where
  shaped : (v : Value) → is_json v ≡ true → Responded (ok v) (phase "response" ∷ [])
  unshaped : (r : Result Value) → is_ok r ≡ false → Responded r (phase "response" ∷ [])

data Shaped : Result Value → List Event → Type 0 where
  fits : (v : Value) → is_json v ≡ true → Shaped (ok v) []
  unfits : (r : Result Value) → is_ok r ≡ false → Shaped r []

auth_phase :
    (script : CompiledScript)
    → handles script "auth" ≡ true
    → (r : Result (Unit {0})) (es : List Event) → Then (RunsPhase "auth") Silent r es
    → Authenticated script r es
auth_phase script h r es (went_on a fs gs s (ran t) (silent u)) = auth_ran u h
auth_phase script h r es (stopped e fs (ran t)) = auth_ran (err e) h
auth_phase script h r es (crashed fs (ran t)) = auth_ran crash h

response_phase :
    (r : Result Value) (es : List Event) → Then (RunsPhase "response") Shaped r es → Responded r es
response_phase r es (went_on a fs gs s (ran t) (fits v h)) = shaped v h
response_phase r es (went_on a fs gs s (ran t) (unfits u h)) = unshaped u h
response_phase r es (stopped e fs (ran t)) = unshaped (err e) refl
response_phase r es (crashed fs (ran t)) = unshaped crash refl

-- The parts of a run in their order.
abbrev pub IsRun : CompiledScript → ChannelSpec → ℕ → Result Value → List Event → Type 0
IsRun script channel n =
    Then (Authenticated script)
      (Then (RunsPhase "request") (Then Obtained (Then (JobFinished channel n) Responded)))

module _ (o : Outside) where
  open o use {St, clock}

  authenticate-Keeps :
      (script : CompiledScript) (client_payload : Value)
      → Keeps (Authenticated script) (authenticate o script client_payload)
  unfolding authenticate call_phase
  authenticate-Keeps script client_payload w = elim (Bool-cases (handles script "auth")) [
    | inl there ↦
        let emitting : Value → Exec (World St) (Unit {0}) =
          λ emitted. modify (λ v. record v { ctx = emit_headers o emitted v.ctx }) in
        rw there (
          Keeps-weaken (Then (RunsPhase "auth") Silent) (Authenticated script)
            (call_phase o client_payload "auth" >>= emitting) (auth_phase script there)
            (Keeps->>= (RunsPhase "auth") Silent (call_phase o client_payload "auth") emitting
              (call_phase-Keeps o client_payload "auth")
              (λ emitted. Keeps-Silent (emitting emitted) (λ v. refl)))
            w)
    | inr absent ↦ rw absent ([], sym (append-nil w.events), no_auth absent)
  ]

  pub job_result-Keeps :
      (enabled declared : Bool) (channel : ChannelSpec) (settings : Settings)
      (reply : UpstreamReply) (budget : Option Budget) (stage : Option String)
      → channel.async_spec.enabled ≡ enabled
      → Keeps
          (JobFinished channel settings.poll_max_attempts)
          (job_result o enabled declared channel settings reply budget stage)
  unfolding job_result run_poll_loop
  job_result-Keeps false declared channel settings reply budget stage e w =
      ([], sym (append-nil w.events), no_job _ e)
  job_result-Keeps true false channel settings reply budget stage e w =
      ([], sym (append-nil w.events), undeclared _ e)
  job_result-Keeps true true channel settings reply budget stage e w =
      let (es, eq, p) =
        poll_loop-Turns o channel settings budget stage (clock w.outside) settings.poll_max_attempts
          (payload reply) w in
      (es, eq, job _ es e p)

  pub respond-Keeps : (reply_payload : Value) → Keeps Responded (respond o reply_payload)
  unfolding respond
  respond-Keeps reply_payload w =
      let shaping : Value → Exec (World St) Value =
        λ result. if is_json result then pure result else raise (script_runtime_error "response") in
      Keeps-weaken (Then (RunsPhase "response") Shaped) Responded
        (call_phase o reply_payload "response" >>= shaping) response_phase
        (Keeps->>= (RunsPhase "response") Shaped (call_phase o reply_payload "response") shaping
          (call_phase-Keeps o reply_payload "response")
          (λ v u. elim (Bool-cases (is_json v)) [
            | inl fit ↦ rw fit ([], sym (append-nil u.events), fits v fit)
            | inr unfit ↦ rw unfit ([], sym (append-nil u.events), unfits _ refl)
          ]))
        (cleared w)

  -- A run of the single-call path logs, in this order: the auth phase if the script declares one; the
  -- request phase; what obtaining the reply logs; the poll loop's at most `poll_max_attempts` turns if
  -- the channel has X-Async; and the response phase. It leaves the rest out only when a part ends in
  -- an error, which is the run's, and its result is a JSON object or array.
  pub execute-order :
      (script : CompiledScript) (channel : ChannelSpec) (settings : Settings)
      (client_payload : Value) (budget : Option Budget) (stage : Option String) (w : World St)
      → (es : List Event) × ((execute o script channel settings client_payload budget stage
            w).1.events
          ≡ w.events ++ es)
        × IsRun script channel settings.poll_max_attempts
            (execute o script channel settings client_payload budget stage w).0
            es
  unfolding execute
  execute-order script channel settings client_payload budget stage w =
      let n = settings.poll_max_attempts in
      let finishing : UpstreamReply → Exec (World St) Value =
        λ reply. finish_job o script channel settings reply budget stage >>= respond o in
      let obtaining : Value → Exec (World St) UpstreamReply = λ body v.
        obtain o v.ctx.plan.local_result channel settings client_payload body budget stage v in
      let requesting : Unit {0} → Exec (World St) Value =
        λ u. call_phase o client_payload "request" >>= λ body. obtaining body >>= finishing in
      Keeps->>= (Authenticated script)
        (Then (RunsPhase "request") (Then Obtained (Then (JobFinished channel n) Responded)))
        (authenticate o script client_payload) requesting (authenticate-Keeps script client_payload)
        (λ u.
          Keeps->>= (RunsPhase "request") (Then Obtained (Then (JobFinished channel n) Responded))
            (call_phase o client_payload "request") (λ body. obtaining body >>= finishing)
            (call_phase-Keeps o client_payload "request")
            (λ body.
              Keeps->>= Obtained (Then (JobFinished channel n) Responded) (obtaining body) finishing
                (λ v.
                  obtain-Obtained o v.ctx.plan.local_result channel settings client_payload body
                    budget stage v)
                (λ reply.
                  Keeps->>= (JobFinished channel n) Responded
                    (finish_job o script channel settings reply budget stage) (respond o)
                    (job_result-Keeps channel.async_spec.enabled
                      (handles script "poll_request" && handles script "poll_response") channel
                      settings reply budget stage refl)
                    respond-Keeps)))
        w
