-- ===== src/Stages/Paying.antt =====
-- What a stage that gives an artefact has cost.
use image_adapter.Base.{
  ℕ, ◌+◌, ◌≤◌, refl, ap, String, ◌&&◌, Option, none, some, List, lookup, arith,
}
use image_adapter.Errors.{Result, ok, err, crash}
use image_adapter.Budget.{Budget}
use image_adapter.Settings.{Settings}
use image_adapter.Channel.{ChannelSpec}
use image_adapter.Value.{Value, null, bool, int, float, str, bytes, list, dict, skip}
use image_adapter.Transport.{UpstreamReply}
use image_adapter.Engine.{Outside, World, Exec, ◌>>=◌, cleared, pure, proceed}
use image_adapter.Upstream.{call_phase, do_upstream}
use image_adapter.Executor.{CompiledScript, handles, finish_job}
use image_adapter.Executor.Trace.{Logs, Keeps, RunsPhase, call_phase-Keeps}
use image_adapter.Executor.Calls.{OneCall, unsent, sent, do_upstream-Keeps}
use image_adapter.Executor.Order.{JobFinished, job_result-Keeps}
use image_adapter.Executor.Billing.{calls, calls-append}
use image_adapter.Stages.{call_vendor, call_stage, run_stage, staged}

-- what a result says was paid; a failure says nothing
abbrev pub due : {A : Type 0} → (A → ℕ) → Result A → ℕ
due f (ok a) = f a
due f (err e) = 0
due f crash = 0

-- A step sends at least as many requests as its result says.
abbrev pub Pays : {St A : Type 0} → (A → ℕ) → Exec (World St) A → Type 0
Pays f m = (w : _) → calls w.events + due f (m w).0 ≤ calls (m w).1.events

pub Keeps-Pays :
    {St A : Type 0} (P : Logs A) (f : A → ℕ) (m : Exec (World St) A)
    → ((r : Result A) (es : List _) → P r es → due f r ≤ calls es)
    → Keeps P m
    → Pays f m
Keeps-Pays P f m h k w =
    let (es, e, p) = k w in omega (arith, ap calls e, calls-append w.events es, h (m w).0 es p)

-- a step that says that nothing was paid
pub Keeps-Pays_0 :
    {St A : Type 0} (P : Logs A) (m : Exec (World St) A) → Keeps P m → Pays (λ a. 0) m
Keeps-Pays_0 P m k = Keeps-Pays P (λ a. 0) m (λ r es p. due_0 r (calls es)) k
  where
    due_0 : {A : Type 0} (r : Result A) (n : ℕ) → due (λ a. 0) r ≤ n
    due_0 (ok a) n = omega arith
    due_0 (err e) n = omega arith
    due_0 crash n = omega arith

due_plus : {A : Type 0} (k : ℕ) (f : A → ℕ) (r : Result A) → due (λ a. k + f a) r ≤ k + due f r
due_plus k f (ok a) = omega arith
due_plus k f (err e) = omega arith
due_plus k f crash = omega arith

pub proceed-Pays :
    {St A B : Type 0} (before k : ℕ) (f : B → ℕ) (r : Result A) (g : A → Exec (World St) B)
    (w : World St)
    → before + due (λ a. k) r ≤ calls w.events
    → ((a : A) → Pays f (g a))
    → before + due (λ b. k + f b) (proceed r g w).0 ≤ calls (proceed r g w).1.events
proceed-Pays before k f (ok a) g w e h = omega (arith, e, h a w, due_plus k f (g a w).0)
proceed-Pays before k f (err x) g w e h = omega (arith, e)
proceed-Pays before k f crash g w e h = omega (arith, e)

pub Pays->>= :
    {St A B : Type 0} (k : ℕ) (f : B → ℕ) (m : Exec (World St) A) (g : A → Exec (World St) B)
    → Pays (λ a. k) m
    → ((a : A) → Pays f (g a))
    → Pays (λ b. k + f b) (m >>= g)
Pays->>= k f m g h j w = proceed-Pays (calls w.events) k f (m w).0 g (m w).1 (h w) j

due_more : {A : Type 0} (f : A → ℕ) (r : Result A) → due f r ≤ due (λ a. 0 + f a) r
due_more f (ok a) = omega arith
due_more f (err e) = omega arith
due_more f crash = omega arith

-- a step that says nothing of its cost, and the one after it
pub Pays->>=_0 :
    {St A B : Type 0} (f : B → ℕ) (m : Exec (World St) A) (g : A → Exec (World St) B)
    → Pays (λ a. 0) m
    → ((a : A) → Pays f (g a))
    → Pays f (m >>= g)
Pays->>=_0 f m g h j w = omega (arith, Pays->>= 0 f m g h j w, due_more f ((m >>= g) w).0)

-- an artefact is one request's at least
abbrev pub one_each : Option Value → ℕ
one_each none = 0
one_each (some artefact) = 1

OneCall-Pays : (r : Result UpstreamReply) (es : List _) → OneCall r es → due (λ a. 1) r ≤ calls es
unfolding calls
OneCall-Pays (ok reply) es (unsent t h k) = absurd (cc)
OneCall-Pays (err e) es (unsent t h k) = omega arith
OneCall-Pays crash es (unsent t h k) = omega arith
OneCall-Pays (ok reply) es (sent t q x h) = omega arith
OneCall-Pays (err e) es (sent t q x h) = omega arith
OneCall-Pays crash es (sent t q x h) = omega arith

module _ (o : Outside) (script : CompiledScript) (channel : ChannelSpec) (settings : Settings) where
  open o use {St}

  pub call_phase-Pays : (v : Value) (name : String) → Pays (λ a. 0) (call_phase o v name)
  call_phase-Pays v name =
      Keeps-Pays_0 (RunsPhase name) (call_phase o v name) (call_phase-Keeps o v name)

  finish_job-Pays :
      (reply : UpstreamReply) (budget : Option Budget) (stage : Option String)
      → Pays (λ a. 0) (finish_job o script channel settings reply budget stage)
  finish_job-Pays reply budget stage =
      Keeps-Pays_0 (JobFinished channel settings.poll_max_attempts)
        (finish_job o script channel settings reply budget stage)
        (job_result-Keeps o channel.async_spec.enabled
          (handles script "poll_request" && handles script "poll_response") channel settings reply
          budget stage refl)

  call_vendor-Pays :
      (stage : String) (budget : Budget) (body : Value)
      → Pays one_each (call_vendor o script channel settings stage budget body)
  unfolding call_vendor
  call_vendor-Pays stage budget body w =
      let keep : Value → Exec (World St) (Option Value) =
        λ v u. (call_phase o v (staged "response:" stage) >>= λ out. pure (some out)) (cleared u) in
      let finish : UpstreamReply → Exec (World St) (Option Value) =
        λ reply. finish_job o script channel settings reply (some budget) (some stage) >>= keep in
      let ask : Exec (World St) UpstreamReply =
        do_upstream o channel settings body (lookup stage channel.stages.urls) (some budget)
          (some stage) none in
      let paid =
        Pays->>= 1 (λ a. 0) ask finish
          (Keeps-Pays OneCall (λ a. 1) ask OneCall-Pays
            (do_upstream-Keeps o channel settings body (lookup stage channel.stages.urls)
              (some budget) (some stage) none))
          (λ reply.
            Pays->>=_0 (λ a. 0)
              (finish_job o script channel settings reply (some budget) (some stage)) keep
              (finish_job-Pays reply (some budget) (some stage))
              (λ v u.
                Pays->>=_0 (λ a. 0) (call_phase o v (staged "response:" stage))
                  (λ out. pure (some out)) (call_phase-Pays v (staged "response:" stage))
                  (λ out t. omega arith) (cleared u)))
          w in
      omega (arith, paid, at_most ((ask >>= finish) w).0)
    where
      at_most : (r : Result (Option Value)) → due one_each r ≤ due (λ a. 1 + 0) r
      at_most (ok none) = omega arith
      at_most (ok (some v)) = omega arith
      at_most (err e) = omega arith
      at_most crash = omega arith

  call_stage-Pays :
      (stage : String) (budget : Budget) (body : Value)
      → Pays one_each (call_stage o script channel settings stage budget body)
  unfolding call_stage
  call_stage-Pays stage budget skip w = omega arith
  call_stage-Pays stage budget null w = call_vendor-Pays stage budget null w
  call_stage-Pays stage budget (bool b) w = call_vendor-Pays stage budget (bool b) w
  call_stage-Pays stage budget (int n) w = call_vendor-Pays stage budget (int n) w
  call_stage-Pays stage budget (float x) w = call_vendor-Pays stage budget (float x) w
  call_stage-Pays stage budget (str s) w = call_vendor-Pays stage budget (str s) w
  call_stage-Pays stage budget (bytes b) w = call_vendor-Pays stage budget (bytes b) w
  call_stage-Pays stage budget (list l) w = call_vendor-Pays stage budget (list l) w
  call_stage-Pays stage budget (dict d) w = call_vendor-Pays stage budget (dict d) w

  pub run_stage-Pays :
      (stage : String) (budget : Budget) (input : Value)
      → Pays one_each (run_stage o script channel settings stage budget input)
  unfolding run_stage
  run_stage-Pays stage budget input w =
      Pays->>=_0 one_each (call_phase o input (staged "request:" stage))
        (call_stage o script channel settings stage budget)
        (call_phase-Pays input (staged "request:" stage)) (call_stage-Pays stage budget) (cleared w)
