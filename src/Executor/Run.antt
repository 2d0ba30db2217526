-- ===== src/Executor/Run.antt =====
-- The log of the poll loop.
use image_adapter.Base.{
  ℕ, zero, suc, ◌≡◌, ◌∙◌, refl, sym, ap, String, false, ◌⊎◌, inl, inr, Option, none, some, List, [],
  ◌∷◌, ◌++◌, Bool-cases,
}
use mathlib.Core.List.{append_assoc, append-nil}
use image_adapter.Errors.{Result, ok, err, crash}
use image_adapter.Budget.{Budget}
use image_adapter.Settings.{Settings}
use image_adapter.Channel.{ChannelSpec}
use image_adapter.Value.{Value}
use image_adapter.Transport.{UpstreamReply, Request, payload}
use image_adapter.Engine.{Outside, Event, phase, call, Exchange, World, Exec, ◌>>=◌, cleared, lift}
use image_adapter.Upstream.{call_phase, do_upstream, spent, passed, capped}
use image_adapter.PollLoop.{judge, poll_once, after_turn, poll_loop}
use image_adapter.Executor.Trace.{
  Keeps, Silent, silent, RunsPhase, ran, Then, went_on, stopped, crashed, Keeps->>=, Keeps-weaken,
  Keeps-Silent, call_phase-Keeps,
}
use image_adapter.Executor.Calls.{is_ok, OneCall, unsent, sent, do_upstream-Keeps}

-- One turn of the poll loop: it stops after its first phase, after its call, or it is whole.
pub data Turn : Result (Value ⊎ Value) → List Event → Type 0 where
  asked : (r : Result (Value ⊎ Value)) → is_ok r ≡ false → Turn r (phase "poll_request" ∷ [])
  polled :
      (r : Result (Value ⊎ Value)) (q : Request) (x : Exchange)
      → is_ok r ≡ false
      → Turn r (phase "poll_request" ∷ call q x ∷ [])
  judged :
      (r : Result (Value ⊎ Value)) (q : Request) (x : Exchange)
      → Turn r (phase "poll_request" ∷ call q x ∷ phase "poll_response" ∷ [])

-- At most `n` turns: only the last may return the job's result, and the loop ends without one after
-- the `n`-th.
pub data Turns : ℕ → Result Value → List Event → Type 0 where
  ended : (n : ℕ) (r : Result Value) → is_ok r ≡ false → Turns n r []
  failed_turn :
      (n : ℕ) (r : Result Value) (t : Result (Value ⊎ Value)) (es : List Event)
      → Turn t es
      → is_ok r ≡ false
      → Turns (suc n) r es
  finished : (n : ℕ) (v : Value) (es : List Event) → Turn (ok (inl v)) es → Turns (suc n) (ok v) es
  next_turn :
      (n : ℕ) (r : Result Value) (h : Value) (es fs : List Event)
      → Turn (ok (inr h)) es
      → Turns n r fs
      → Turns (suc n) r (es ++ fs)

abbrev Judged : Result (Value ⊎ Value) → List Event → Type 0
Judged = Then (RunsPhase "poll_request") (Then OneCall (Then (RunsPhase "poll_response") Silent))

Turn-Judged : (r : Result (Value ⊎ Value)) (es : List Event) → Judged r es → Turn r es
Turn-Judged r es
      (went_on a f1 g1 s1
        (ran t1)
        (went_on b f2 g2 s2 (sent u q x h) (went_on c f3 g3 s3 (ran t3) (silent v)))) =
    judged v q x
Turn-Judged r es
      (went_on a f1 g1 s1 (ran t1) (went_on b f2 g2 s2 (sent u q x h) (stopped e f3 (ran t3)))) =
    judged (err e) q x
Turn-Judged r es
      (went_on a f1 g1 s1 (ran t1) (went_on b f2 g2 s2 (sent u q x h) (crashed f3 (ran t3)))) =
    judged crash q x
Turn-Judged r es (went_on a f1 g1 s1 (ran t1) (went_on b f2 g2 s2 (unsent u n m) k)) = absurd (cc)
Turn-Judged r es (went_on a f1 g1 s1 (ran t1) (stopped e f2 (sent u q x h))) =
    polled (err e) q x refl
Turn-Judged r es (went_on a f1 g1 s1 (ran t1) (stopped e f2 (unsent u n m))) = asked (err e) refl
Turn-Judged r es (went_on a f1 g1 s1 (ran t1) (crashed f2 (sent u q x h))) = polled crash q x refl
Turn-Judged r es (went_on a f1 g1 s1 (ran t1) (crashed f2 (unsent u n m))) = asked crash refl
Turn-Judged r es (stopped e f1 (ran t1)) = asked (err e) refl
Turn-Judged r es (crashed f1 (ran t1)) = asked crash refl

module _ (o : Outside) where
  open o use {St, clock, sleep}

  poll_once-Turn :
      (channel : ChannelSpec) (settings : Settings) (budget : Option Budget) (stage : Option String)
      (handle : Value)
      → Keeps Turn (poll_once o channel settings budget stage handle)
  unfolding poll_once
  poll_once-Turn channel settings budget stage handle w =
      let interval = capped budget (clock w.outside) channel.async_spec.poll_interval in
      let judging : UpstreamReply → Value → Exec (World St) (Value ⊎ Value) =
        λ reply verdict. lift (judge o handle reply verdict) in
      let asking : UpstreamReply → Exec (World St) (Value ⊎ Value) =
        λ reply. call_phase o (payload reply) "poll_response" >>= judging reply in
      let calling : Value → Exec (World St) (Value ⊎ Value) = λ body.
        do_upstream o channel settings body none budget stage (some settings.poll_request_timeout)
        >>= asking in
      Keeps-weaken Judged Turn (call_phase o handle "poll_request" >>= calling) Turn-Judged
        (Keeps->>= (RunsPhase "poll_request")
          (Then OneCall (Then (RunsPhase "poll_response") Silent))
          (call_phase o handle "poll_request") calling (call_phase-Keeps o handle "poll_request")
          (λ body.
            Keeps->>= OneCall (Then (RunsPhase "poll_response") Silent)
              (do_upstream o channel settings body none budget stage
                (some settings.poll_request_timeout))
              asking
              (do_upstream-Keeps o channel settings body none budget stage
                (some settings.poll_request_timeout))
              (λ reply.
                Keeps->>= (RunsPhase "poll_response") Silent
                  (call_phase o (payload reply) "poll_response") (judging reply)
                  (call_phase-Keeps o (payload reply) "poll_response")
                  (λ verdict. Keeps-Silent (judging reply verdict) (λ v. refl)))))
        (cleared (record w { outside = sleep interval w.outside }))

  after_turn-Turns :
      (n : ℕ) (again : Value → Exec (World St) Value) (v w : World St) (t : Result (Value ⊎ Value))
      (es : List Event)
      → w.events ≡ v.events ++ es
      → Turn t es
      → ((h : Value) → Keeps (Turns n) (again h))
      → (fs : List Event) × ((after_turn o again t w).1.events ≡ v.events ++ fs)
        × Turns (suc n) (after_turn o again t w).0 fs
  unfolding after_turn
  after_turn-Turns n again v w (ok (inl a)) es e p k = (es, e, finished n a es p)
  after_turn-Turns n again v w (ok (inr h)) es e p k =
      let (fs, e2, q) = k h w in
      (es ++ fs, e2 ∙ ap (λ l. l ++ fs) e ∙ append_assoc v.events es fs, next_turn n _ h es fs p q)
  after_turn-Turns n again v w (err a) es e p k = (es, e, failed_turn n (err a) (err a) es p refl)
  after_turn-Turns n again v w crash es e p k = (es, e, failed_turn n crash crash es p refl)

  -- The poll loop, entered with `n` attempts left, runs at most `n` turns, each of which is a
  -- poll_request phase, one call and a poll_response phase, in this order, or stops within. It always
  -- ends: with the result of its last turn, or with an error.
  pub poll_loop-Turns :
      (channel : ChannelSpec) (settings : Settings) (budget : Option Budget) (stage : Option String)
      (start n : ℕ) (handle : Value) (w : World St)
      → (es : List Event) × ((poll_loop o channel settings budget stage start n handle w).1.events
          ≡ w.events ++ es)
        × Turns n (poll_loop o channel settings budget stage start n handle w).0 es
  unfolding poll_loop
  poll_loop-Turns channel settings budget stage start zero handle w =
      elim (Bool-cases (passed channel.async_spec.timeout start (clock w.outside))) [
        | inl late ↦ rw late ([], sym (append-nil w.events), ended 0 _ refl)
        | inr early ↦ elim (Bool-cases (spent budget (clock w.outside))) [
          | inl over ↦ rw (early, over) ([], sym (append-nil w.events), ended 0 _ refl)
          | inr time_left ↦ rw (early, time_left) ([], sym (append-nil w.events), ended 0 _ refl)
        ]
      ]
  poll_loop-Turns channel settings budget stage start (suc n) handle w =
      elim (Bool-cases (passed channel.async_spec.timeout start (clock w.outside))) [
        | inl late ↦ rw late ([], sym (append-nil w.events), ended (suc n) _ refl)
        | inr early ↦ elim (Bool-cases (spent budget (clock w.outside))) [
          | inl over ↦ rw (early, over) ([], sym (append-nil w.events), ended (suc n) _ refl)
          | inr time_left ↦
              let (es, e, p) = poll_once-Turn channel settings budget stage handle w in
              rw (early, time_left)
                (after_turn-Turns n (poll_loop o channel settings budget stage start n) w
                  (poll_once o channel settings budget stage handle w).1
                  (poll_once o channel settings budget stage handle w).0 es e p
                  (λ h v. poll_loop-Turns channel settings budget stage start n h v))
        ]
      ]
