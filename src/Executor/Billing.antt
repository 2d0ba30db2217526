-- ===== src/Executor/Billing.antt =====
-- How many requests a run may send.
use image_adapter.Base.{
  ℕ, suc, ◌+◌, ◌≤◌, ◌≡◌, ap, String, if◌then◌else◌, inl, inr, Option, List, [], ◌∷◌, ◌++◌, arith,
}
use image_adapter.Errors.{ok, err, crash}
use image_adapter.Budget.{Budget}
use image_adapter.Settings.{Settings}
use image_adapter.Channel.{ChannelSpec}
use image_adapter.Value.{Value}
use image_adapter.Engine.{Outside, Event, phase, call, World}
use image_adapter.Executor.{CompiledScript, execute}
use image_adapter.Executor.Trace.{Logs, RunsPhase, ran, Then, went_on, stopped, crashed}
use image_adapter.Executor.Retry.{Obtained, unasked, once, tried_again, kept, resent}
use image_adapter.Executor.Run.{
  Turn, asked, polled, judged, Turns, ended, failed_turn, finished, next_turn,
}
use image_adapter.Executor.Order.{
  Authenticated, no_auth, auth_ran, JobFinished, no_job, undeclared, job, Responded, shaped,
  unshaped, execute-order,
}

-- the calls of a log
unfoldable pub calls : List Event → ℕ
calls [] = 0
calls (phase name ∷ es) = calls es
calls (call q x ∷ es) = 1 + calls es

pub calls-append : (es fs : List Event) → calls (es ++ fs) ≡ calls es + calls fs
unfolding calls
calls-append [] fs = omega arith
calls-append (phase name ∷ es) fs = calls-append es fs
calls-append (call q x ∷ es) fs = omega (arith, calls-append es fs)

-- A step sends at most `n` requests.
abbrev pub Sends : {A : Type 0} → ℕ → Logs A → Type 0
Sends n P = (r : _) (es : List Event) → P r es → calls es ≤ n

pub Then-Sends :
    {A B : Type 0} (P : Logs A) (Q : Logs B) (m n : ℕ)
    → Sends m P
    → Sends n Q
    → Sends (m + n) (Then P Q)
Then-Sends P Q m n h k r es (went_on a fs gs s p q) =
    omega (arith, calls-append fs gs, h (ok a) fs p, k s gs q)
Then-Sends P Q m n h k r es (stopped e fs p) = omega (arith, h (err e) fs p)
Then-Sends P Q m n h k r es (crashed fs p) = omega (arith, h crash fs p)

Turn-Sends : Sends 1 Turn
unfolding calls
Turn-Sends r es (asked t h) = omega arith
Turn-Sends r es (polled t q x h) = omega arith
Turn-Sends r es (judged t q x) = omega arith

Turns-Sends : (n : ℕ) → Sends n (Turns n)
unfolding calls
Turns-Sends n r es (ended m t h) = omega arith
Turns-Sends (suc n) r es (failed_turn m u t fs p h) = omega (arith, Turn-Sends t fs p)
Turns-Sends (suc n) r es (finished m v fs p) = omega (arith, Turn-Sends (ok (inl v)) fs p)
Turns-Sends (suc n) r es (next_turn m u h fs gs p q) =
    omega (arith, calls-append fs gs, Turn-Sends (ok (inr h)) fs p, Turns-Sends n u gs q)

Authenticated-Sends : (script : CompiledScript) → Sends 0 (Authenticated script)
unfolding calls
Authenticated-Sends script r es (no_auth h) = omega arith
Authenticated-Sends script r es (auth_ran t h) = omega arith

Request-Sends : Sends 0 (RunsPhase "request")
unfolding calls
Request-Sends r es (ran t) = omega arith

Obtained-Sends : Sends 2 Obtained
unfolding calls
Obtained-Sends r es (unasked t h) = omega arith
Obtained-Sends r es (once t q x h) = omega arith
Obtained-Sends r es (tried_again t q x fs h (kept u k)) = omega arith
Obtained-Sends r es (tried_again t q x fs h (resent u p y)) = omega arith

-- the most turns of the poll loop
abbrev pub most_turns : ChannelSpec → Settings → ℕ
most_turns channel settings = if channel.async_spec.enabled then settings.poll_max_attempts else 0

pub JobFinished-Sends :
    (channel : ChannelSpec) (settings : Settings)
    → Sends (most_turns channel settings) (JobFinished channel settings.poll_max_attempts)
unfolding calls
JobFinished-Sends channel settings r es (no_job v h) = omega arith
JobFinished-Sends channel settings r es (undeclared e h) = omega arith
JobFinished-Sends channel settings r es (job t fs h p) =
    ground (arith, h, Turns-Sends settings.poll_max_attempts t fs p)

Responded-Sends : Sends 0 Responded
unfolding calls
Responded-Sends r es (shaped v h) = omega arith
Responded-Sends r es (unshaped t h) = omega arith

-- A run of the single-call path sends at most two requests, and for a channel with X-Async at most
-- `poll_max_attempts` more, however it ends.
pub execute-calls :
    (o : Outside) (script : CompiledScript) (channel : ChannelSpec) (settings : Settings)
    (client_payload : Value) (budget : Option Budget) (stage : Option String) (w : World o.St)
    → calls (execute o script channel settings client_payload budget stage w).1.events
      ≤ calls w.events + (2 + most_turns channel settings)
execute-calls o script channel settings client_payload budget stage w =
    let (es, e, p) = execute-order o script channel settings client_payload budget stage w in
    let n = settings.poll_max_attempts in
    let t = most_turns channel settings in
    let bound =
      Then-Sends (Authenticated script)
        (Then (RunsPhase "request") (Then Obtained (Then (JobFinished channel n) Responded))) 0
        (0 + (2 + (t + 0))) (Authenticated-Sends script)
        (Then-Sends (RunsPhase "request") (Then Obtained (Then (JobFinished channel n) Responded)) 0
          (2 + (t + 0)) Request-Sends
          (Then-Sends Obtained (Then (JobFinished channel n) Responded) 2 (t + 0) Obtained-Sends (
            Then-Sends (JobFinished channel n) Responded t 0 (JobFinished-Sends channel settings)
              Responded-Sends)))
        (execute o script channel settings client_payload budget stage w).0 es p in
    omega (arith, ap calls e, calls-append w.events es, bound)
