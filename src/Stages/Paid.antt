-- ===== src/Stages/Paid.antt =====
-- The requests that a cascade counts are requests that it sent.
use image_adapter.Base.{
  ℕ, ◌+◌, ◌≤◌, String, not, ◌&&◌, is_some, elem, Option, none, some, List, [], ◌∷◌, Assoc, arith,
  Bool-cases, inl, inr,
}
use image_adapter.Errors.{Result, ok, err, crash}
use image_adapter.Budget.{Budget, resolve_total}
use image_adapter.Settings.{Settings}
use image_adapter.Channel.{ChannelSpec}
use image_adapter.Value.{Value, is_null, is_json}
use image_adapter.Engine.{Outside, World, Exec, cleared, pure, proceed, lift}
use image_adapter.Upstream.{call_phase}
use image_adapter.Executor.{CompiledScript, handles}
use image_adapter.Executor.Billing.{calls}
use image_adapter.Stages.{
  StageOutcome, Progress, start, after_stage, run_stages, run_stage, emit_auth, auth_headers_of,
  authenticate_all, shape_degraded, present, conclude, run_cascade, start_cascade, execute_staged,
  resolve_stages,
}
use image_adapter.Stages.Paying.{due, Pays, Pays->>=_0, one_each, call_phase-Pays, run_stage-Pays}

-- Of a step from a progress: it sends as many requests as it adds to the progress at least.
abbrev Adds : {St : Type 0} → (Progress → Exec (World St) Progress) → Type 0
Adds rest =
    (p : Progress) (w : _)
    → calls w.events + due (λ (q : Progress). q.calls) (rest p w).0
      ≤ calls (rest p w).1.events + p.calls

module _ (o : Outside) (script : CompiledScript) (channel : ChannelSpec) (settings : Settings) where
  open o use {St, clock}

  after_stage-Adds :
      (before : ℕ) (rest : Progress → Exec (World St) Progress) (stage : String) (p : Progress)
      (r : Result (Option Value)) (w : World St)
      → before + due one_each r ≤ calls w.events
      → Adds rest
      → before + due (λ (q : Progress). q.calls) (after_stage o script rest stage p r w).0
        ≤ calls (after_stage o script rest stage p r w).1.events + p.calls
  unfolding after_stage
  after_stage-Adds before rest stage p (ok (some artefact)) w paid h =
      let q : Progress = record {
        input = artefact;
        artefact = artefact;
        degraded = p.degraded;
        calls = p.calls + 1;
      } in
      omega (arith, paid, h q _)
  after_stage-Adds before rest stage p (ok none) w paid h = omega (arith, paid, h p w)
  after_stage-Adds before rest stage p (err e) w paid h =
      elim (Bool-cases (elem stage script.fallback && not (is_null p.artefact))) [
        | inl can ↦ rw can (omega (arith, paid))
        | inr cannot ↦ rw cannot (omega (arith, paid))
      ]
  after_stage-Adds before rest stage p crash w paid h = omega (arith, paid)

  run_stages-Adds :
      (budget : Budget) (headers : Assoc String) (stages : List String)
      → Adds (run_stages o script channel settings budget headers stages)
  unfolding run_stages
  run_stages-Adds budget headers [] p w = omega arith
  run_stages-Adds budget headers (stage ∷ stages) p w =
      let v : World St = record w { ctx = emit_auth o headers w.ctx } in
      let ran = run_stage o script channel settings stage budget p.input v in
      after_stage-Adds (calls w.events) (run_stages o script channel settings budget headers stages)
        stage p ran.0 ran.1 (run_stage-Pays o script channel settings stage budget p.input v)
        (run_stages-Adds budget headers stages)

  shape_degraded-Pays : (p : Progress) → Pays (λ a. 0) (shape_degraded o script p)
  unfolding shape_degraded
  shape_degraded-Pays p w = elim (Bool-cases (is_some p.degraded && handles script "degraded")) [
    | inl shapes ↦
        rw shapes (call_phase-Pays o script channel settings p.artefact "degraded" (cleared w))
    | inr plain ↦ rw plain (omega arith)
  ]

  present-calls :
      (stages : List String) (p : Progress) (v : Value)
      → due (λ (out : StageOutcome). out.calls) (present o stages p v) ≤ p.calls
  present-calls stages p v = elim (Bool-cases (is_json v)) [
    | inl fit ↦ rw fit (omega arith)
    | inr unfit ↦ rw unfit (omega arith)
  ]

  -- what presents a result logs nothing, and says what the progress says
  presented-calls :
      (stages : List String) (p : Progress) (before : ℕ) (r : Result Value) (w : World St)
      → before + p.calls ≤ calls w.events
      → before
          + due
              (λ (out : StageOutcome). out.calls)
              (proceed r (λ v. lift (present o stages p v)) w).0
        ≤ calls (proceed r (λ v. lift (present o stages p v)) w).1.events
  presented-calls stages p before (ok v) w h = omega (arith, h, present-calls stages p v)
  presented-calls stages p before (err e) w h = omega (arith, h)
  presented-calls stages p before crash w h = omega (arith, h)

  conclude-calls :
      (stages : List String) (before : ℕ) (p : Progress) (w : World St)
      → before + p.calls ≤ calls w.events
      → before + due (λ (out : StageOutcome). out.calls) (conclude o script stages p w).0
        ≤ calls (conclude o script stages p w).1.events
  unfolding conclude
  conclude-calls stages before p w h = elim (Bool-cases (is_null p.artefact)) [
    | inl missing ↦ rw missing (omega (arith, h))
    | inr there ↦
        let shaped = shape_degraded o script p w in
        let kept : calls w.events ≤ calls shaped.1.events =
          omega (arith, shape_degraded-Pays p w) in
        rw there (presented-calls stages p before shaped.0 shaped.1 (omega (arith, h, kept)))
  ]

  concluded-calls :
      (stages : List String) (before : ℕ) (r : Result Progress) (w : World St)
      → before + due (λ (p : Progress). p.calls) r ≤ calls w.events
      → before + due (λ (out : StageOutcome). out.calls) (proceed r (conclude o script stages) w).0
        ≤ calls (proceed r (conclude o script stages) w).1.events
  concluded-calls stages before (ok p) w h = conclude-calls stages before p w h
  concluded-calls stages before (err e) w h = h
  concluded-calls stages before crash w h = h

  run_cascade-Pays :
      (client_payload : Value) (stages : List String) (budget : Budget) (headers : Assoc String)
      → Pays
          (λ (out : StageOutcome). out.calls)
          (run_cascade o script channel settings client_payload stages budget headers)
  unfolding run_cascade
  run_cascade-Pays client_payload stages budget headers w =
      let ran =
        run_stages o script channel settings budget headers stages (start client_payload) w in
      concluded-calls stages (calls w.events) ran.0 ran.1
        (omega (arith, run_stages-Adds budget headers stages (start client_payload) w))

  authenticate_all-Pays :
      (client_payload : Value) → Pays (λ a. 0) (authenticate_all o script client_payload)
  unfolding authenticate_all
  authenticate_all-Pays client_payload w = elim (Bool-cases (handles script "auth")) [
    | inl declared ↦ rw declared (
        Pays->>=_0 (λ a. 0) (call_phase o client_payload "auth")
          (λ emitted. pure (auth_headers_of o emitted))
          (call_phase-Pays o script channel settings client_payload "auth")
          (λ emitted v. omega arith) w)
    | inr undeclared ↦ rw undeclared (omega arith)
  ]

  start_cascade-Pays :
      (client_payload : Value) (stages : List String)
      → Pays
          (λ (out : StageOutcome). out.calls)
          (start_cascade o script channel settings client_payload stages)
  unfolding start_cascade
  start_cascade-Pays client_payload stages w =
      let total =
        resolve_total channel.stages.budget settings.stage_budget_default
          settings.stage_budget_max in
      let budget : Budget = record { total = total; started = clock w.outside } in
      Pays->>=_0 (λ (out : StageOutcome). out.calls) (authenticate_all o script client_payload)
        (run_cascade o script channel settings client_payload stages budget)
        (authenticate_all-Pays client_payload) (run_cascade-Pays client_payload stages budget)
        (record w { ctx = record w.ctx { budget = some budget; stage = [] } })

  -- However a cascade ends, it has sent at least as many requests as its outcome says, if it has one.
  pub execute_staged-Pays :
      (client_payload : Value)
      → Pays
          (λ (out : StageOutcome). out.calls)
          (execute_staged o script channel settings client_payload)
  unfolding execute_staged
  execute_staged-Pays client_payload =
      Pays->>=_0 (λ (out : StageOutcome). out.calls) (lift (resolve_stages script channel settings))
        (start_cascade o script channel settings client_payload)
        (λ w. lifted (resolve_stages script channel settings) (calls w.events))
        (start_cascade-Pays client_payload)
    where
      lifted : (r : Result (List String)) (n : ℕ) → n + due (λ stages. 0) r ≤ n
      lifted (ok stages) n = omega arith
      lifted (err e) n = omega arith
      lifted crash n = omega arith
