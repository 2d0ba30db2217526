-- ===== src/Stages/Sending.antt =====
-- How many requests a cascade may send.
use image_adapter.Base.{
  ℕ, ◌+◌, ◌*◌, ◌≤◌, refl, ap, String, ◌&&◌, Option, none, some, List, [], ◌∷◌, length, lookup,
  Assoc, arith,
}
use image_adapter.Errors.{Result, ok, err, crash}
use image_adapter.Budget.{Budget}
use image_adapter.Settings.{Settings}
use image_adapter.Channel.{ChannelSpec}
use image_adapter.Value.{Value}
use image_adapter.Transport.{UpstreamReply}
use image_adapter.Engine.{Outside, World, Exec, ◌>>=◌, cleared, pure, proceed}
use image_adapter.Upstream.{call_phase, do_upstream}
use image_adapter.Executor.{CompiledScript, handles, finish_job}
use image_adapter.Executor.Trace.{Logs, Keeps, RunsPhase, ran, call_phase-Keeps}
use image_adapter.Executor.Calls.{OneCall, unsent, sent, do_upstream-Keeps}
use image_adapter.Executor.Order.{JobFinished, job_result-Keeps}
use image_adapter.Value.{null, bool, int, float, str, bytes, list, dict, skip}
use image_adapter.Executor.Billing.{calls, calls-append, Sends, JobFinished-Sends, most_turns}
use image_adapter.Stages.{
  Progress, call_vendor, call_stage, run_stage, after_stage, run_stages, emit_auth, staged,
}

-- at most `n` more requests
abbrev Within : {St A : Type 0} → ℕ → Exec (World St) A → Type 0
Within n m = (w : _) → calls (m w).1.events ≤ calls w.events + n

Keeps-Within :
    {St A : Type 0} (P : Logs A) (n : ℕ) (m : Exec (World St) A)
    → Sends n P
    → Keeps P m
    → Within n m
Keeps-Within P n m h k w =
    let (es, e, p) = k w in omega (arith, ap calls e, calls-append w.events es, h (m w).0 es p)

proceed-Within :
    {St A B : Type 0} (n : ℕ) (r : Result A) (f : A → Exec (World St) B) (w : World St)
    → ((a : A) → Within n (f a))
    → calls (proceed r f w).1.events ≤ calls w.events + n
proceed-Within n (ok a) f w h = h a w
proceed-Within n (err e) f w h = omega arith
proceed-Within n crash f w h = omega arith

Within->>= :
    {St A B : Type 0} (m n : ℕ) (f : Exec (World St) A) (g : A → Exec (World St) B)
    → Within m f
    → ((a : A) → Within n (g a))
    → Within (m + n) (f >>= g)
Within->>= m n f g h k w = omega (arith, h w, proceed-Within n (f w).0 g (f w).1 k)

Phase-Sends : (name : String) → Sends 0 (RunsPhase name)
unfolding calls
Phase-Sends name r es (ran t) = omega arith

OneCall-Sends : Sends 1 OneCall
unfolding calls
OneCall-Sends r es (unsent t h k) = omega arith
OneCall-Sends r es (sent t q x h) = omega arith

module _ (o : Outside) (script : CompiledScript) (channel : ChannelSpec) (settings : Settings) where
  open o use {St, clock}

  call_phase-Within : (v : Value) (name : String) → Within 0 (call_phase o v name)
  call_phase-Within v name =
      Keeps-Within (RunsPhase name) 0 (call_phase o v name) (Phase-Sends name)
        (call_phase-Keeps o v name)

  abbrev most : ℕ
  most = most_turns channel settings

  finish_job-Within :
      (reply : UpstreamReply) (budget : Option Budget) (stage : Option String)
      → Within most (finish_job o script channel settings reply budget stage)
  finish_job-Within reply budget stage =
      Keeps-Within (JobFinished channel settings.poll_max_attempts) most
        (finish_job o script channel settings reply budget stage)
        (JobFinished-Sends channel settings)
        (job_result-Keeps o channel.async_spec.enabled
          (handles script "poll_request" && handles script "poll_response") channel settings reply
          budget stage refl)

  keep_artefact-Within :
      (stage : String) (v : Value)
      → Within 0 (call_phase o v (staged "response:" stage) >>= λ out. pure (some out))
  keep_artefact-Within stage v =
      Within->>= 0 0 (call_phase o v (staged "response:" stage)) (λ out. pure (some out))
        (call_phase-Within v (staged "response:" stage)) (λ out w. omega arith)

  call_vendor-Within :
      (stage : String) (budget : Budget) (body : Value)
      → Within (1 + most) (call_vendor o script channel settings stage budget body)
  unfolding call_vendor
  call_vendor-Within stage budget body w =
      let keep : Value → Exec (World St) (Option Value) =
        λ v u. (call_phase o v (staged "response:" stage) >>= λ out. pure (some out)) (cleared u) in
      let finish : UpstreamReply → Exec (World St) (Option Value) =
        λ reply. finish_job o script channel settings reply (some budget) (some stage) >>= keep in
      let ask : Exec (World St) UpstreamReply =
        do_upstream o channel settings body (lookup stage channel.stages.urls) (some budget)
          (some stage) none in
      omega (
        arith,
        Within->>= 1 (most + 0) ask finish
            (Keeps-Within OneCall 1 ask OneCall-Sends (
              do_upstream-Keeps o channel settings body (lookup stage channel.stages.urls)
                (some budget) (some stage) none))
            (λ reply.
              Within->>= most 0
                (finish_job o script channel settings reply (some budget) (some stage)) keep
                (finish_job-Within reply (some budget) (some stage))
                (λ v u. keep_artefact-Within stage v (cleared u)))
            w,
      )

  call_stage-Within :
      (stage : String) (budget : Budget) (body : Value)
      → Within (1 + most) (call_stage o script channel settings stage budget body)
  unfolding call_stage
  call_stage-Within stage budget skip w = omega arith
  call_stage-Within stage budget null w = call_vendor-Within stage budget null w
  call_stage-Within stage budget (bool b) w = call_vendor-Within stage budget (bool b) w
  call_stage-Within stage budget (int n) w = call_vendor-Within stage budget (int n) w
  call_stage-Within stage budget (float x) w = call_vendor-Within stage budget (float x) w
  call_stage-Within stage budget (str s) w = call_vendor-Within stage budget (str s) w
  call_stage-Within stage budget (bytes b) w = call_vendor-Within stage budget (bytes b) w
  call_stage-Within stage budget (list l) w = call_vendor-Within stage budget (list l) w
  call_stage-Within stage budget (dict d) w = call_vendor-Within stage budget (dict d) w

  run_stage-Within :
      (stage : String) (budget : Budget) (input : Value)
      → Within (1 + most) (run_stage o script channel settings stage budget input)
  unfolding run_stage
  run_stage-Within stage budget input w = omega (
    arith,
    Within->>= 0 (1 + most) (call_phase o input (staged "request:" stage))
        (call_stage o script channel settings stage budget)
        (call_phase-Within input (staged "request:" stage)) (call_stage-Within stage budget)
        (cleared w),
  )

  after_stage-Within :
      (n : ℕ) (rest : Progress → Exec (World St) Progress) (stage : String) (p : Progress)
      (r : Result (Option Value))
      → ((q : Progress) → Within n (rest q))
      → Within n (after_stage o script rest stage p r)
  unfolding after_stage
  after_stage-Within n rest stage p (ok (some artefact)) h w = h _ _
  after_stage-Within n rest stage p (ok none) h w = h p w
  after_stage-Within n rest stage p (err e) h w = ground arith
  after_stage-Within n rest stage p crash h w = omega arith

  -- The loop over the stages sends at most one request per stage, and for a channel with X-Async at
  -- most `poll_max_attempts` more per stage, however it ends.
  pub run_stages-calls :
      (budget : Budget) (headers : Assoc String) (stages : List String) (p : Progress)
      (w : World St)
      → calls (run_stages o script channel settings budget headers stages p w).1.events
        ≤ calls w.events + length stages * (1 + most_turns channel settings)
  unfolding run_stages
  run_stages-calls budget headers [] p w = omega arith
  run_stages-calls budget headers (stage ∷ stages) p w =
      let v : World St = record w { ctx = emit_auth o headers w.ctx } in
      let ran = run_stage o script channel settings stage budget p.input v in
      let n = length stages * (1 + most) in
      omega (
        arith,
        run_stage-Within stage budget p.input v,
        after_stage-Within n (run_stages o script channel settings budget headers stages) stage p
            ran.0 (λ q u. run_stages-calls budget headers stages q u) ran.1,
      )
