-- ===== src/Stages/Degrading.antt =====
-- What a cascade may return.
use image_adapter.Base.{
  ◌+◌, ◌≤◌, ◌≡◌, ◌∙◌, refl, sym, String, true, false, not, ◌&&◌, inl, inr, Option, none, some, List,
  [], ◌∷◌, elem, Assoc, arith, Bool-cases,
}
use mathlib.Core.Path.{subst}
use image_adapter.Errors.{ok-injective, Result, ok, err, crash}
use image_adapter.Budget.{Budget, resolve_total}
use image_adapter.Settings.{Settings}
use image_adapter.Channel.{ChannelSpec}
use image_adapter.Value.{Value, is_json, is_null}
use image_adapter.Engine.{Outside, World, Exec, proceed, lift}
use image_adapter.Executor.{CompiledScript}
use image_adapter.Executor.Billing.{calls}
use image_adapter.Stages.Paying.{due}
use image_adapter.Stages.Paid.{execute_staged-Pays}
use image_adapter.Stages.{
  StageOutcome, Progress, start, after_stage, run_stages, run_stage, shape_degraded, present,
  conclude, run_cascade, start_cascade, execute_staged, resolve_stages, authenticate_all, emit_auth,
  reason,
}

-- What holds of a cascade wherever its loop stops: it is degraded only by a stage that the script
-- says it can lose, with an artefact in hand, and an artefact comes of a call.
record IsSound (script : CompiledScript) (p : Progress) : Type 0 where
  degraded_by :
      (stage why : String)
      → p.degraded ≡ some (stage, why)
      → (elem stage script.fallback ≡ true) × (is_null p.artefact ≡ false)
  artefact_of : is_null p.artefact ≡ false → 1 ≤ p.calls

proceed-eq-ok :
    {S A B : Type 0} (r : Result A) (f : A → Exec S B) (s : S) (b : B)
    → (proceed r f s).0 ≡ ok b
    → (a : A) × (r ≡ ok a) × ((f a s).0 ≡ ok b)
proceed-eq-ok (ok a) f s b h = (a, refl, h)
proceed-eq-ok (err e) f s b h = cc
proceed-eq-ok crash f s b h = cc

some-injective_fst :
    {A B : Type 0} {a c : A} {b d : B} → Path (Option (A × B)) (some (a, b)) (some (c, d)) → a ≡ c
some-injective_fst h = cc

-- A result that satisfies `P` if it is one.
abbrev AllOk : {A : Type 0} → (A → Type 0) → Result A → Type 0
AllOk P r = (a : _) → r ≡ ok a → P a

proceed-AllOk_at :
    {S A B : Type 0} (P : B → Type 0) (r : Result A) (f : A → Exec S B) (s : S)
    → ((a : A) → r ≡ ok a → AllOk P (f a s).0)
    → AllOk P (proceed r f s).0
proceed-AllOk_at P (ok a) f s h b e = h a refl b e
proceed-AllOk_at P (err x) f s h b e = absurd (cc)
proceed-AllOk_at P crash f s h b e = absurd (cc)

proceed-AllOk :
    {S A B : Type 0} (P : B → Type 0) (r : Result A) (f : A → Exec S B) (s : S)
    → ((a : A) (t : S) → AllOk P (f a t).0)
    → AllOk P (proceed r f s).0
proceed-AllOk P r f s h = proceed-AllOk_at P r f s (λ a e. h a s)

module _ (o : Outside) (script : CompiledScript) where
  open o use {St, clock}

  after_stage-IsSound :
      (rest : Progress → Exec (World St) Progress) (stage : String) (p : Progress)
      (r : Result (Option Value)) (w : World St)
      → IsSound script p
      → p.degraded ≡ none
      → ((q : Progress) (v : World St)
          → IsSound script q
          → q.degraded ≡ none
          → AllOk (IsSound script) (rest q v).0)
      → AllOk (IsSound script) (after_stage o script rest stage p r w).0
  unfolding after_stage
  after_stage-IsSound rest stage p (ok (some artefact)) w s d k q h =
      k
        (record {
          input = artefact;
          artefact = artefact;
          degraded = p.degraded;
          calls = p.calls + 1;
        })
        _ (record { degraded_by = λ st why g. absurd (cc); artefact_of = λ g. omega arith }) d q h
  after_stage-IsSound rest stage p (ok none) w s d k q h = k p w s d q h
  after_stage-IsSound rest stage p (err e) w s d k q h =
      elim (Bool-cases (elem stage script.fallback && not (is_null p.artefact))) [
        | inl can ↦
            let both : (elem stage script.fallback ≡ true) × (is_null p.artefact ≡ false) =
              (ground (arith, can), ground (arith, can)) in
            let kept : Progress = record p { degraded = some (stage, reason e) } in
            let ends : (after_stage o script rest stage p (err e) w).0 ≡ ok kept = rw can refl in
            let final : kept ≡ q = ok-injective (sym ends ∙ h) in
            subst (IsSound script) final (record {
              degraded_by = λ st why g.
                  let same : stage ≡ st = some-injective_fst g in
                  (subst (λ x. elem x script.fallback ≡ true) same both.0, both.1);
              artefact_of = s.artefact_of;
            })
        | inr cannot ↦ absurd (ground (arith, cannot))
      ]
  after_stage-IsSound rest stage p crash w s d k q h = absurd (cc)

  run_stages-IsSound :
      (channel : ChannelSpec) (settings : Settings) (budget : Budget) (headers : Assoc String)
      (stages : List String) (p : Progress) (w : World St)
      → IsSound script p
      → p.degraded ≡ none
      → AllOk (IsSound script) (run_stages o script channel settings budget headers stages p w).0
  unfolding run_stages
  run_stages-IsSound channel settings budget headers [] p w s d q h =
      subst (IsSound script) (ok-injective h) s
  run_stages-IsSound channel settings budget headers (stage ∷ stages) p w s d q h =
      let ran =
        run_stage o script channel settings stage budget p.input
          (record w { ctx = emit_auth o headers w.ctx }) in
      after_stage-IsSound (run_stages o script channel settings budget headers stages) stage p ran.0
        ran.1 s d (run_stages-IsSound channel settings budget headers stages) q h

  start-IsSound : (v : Value) → IsSound script (start v)
  start-IsSound v = record {
    degraded_by = λ stage why g. absurd (cc);
    artefact_of = λ g. absurd (cc);
  }

  -- no stage was lost, or one that the script says it can lose
  abbrev pub IsLoss : Option (String × String) → Type 0
  IsLoss none = Unit {0}
  IsLoss (some (stage, why)) = elem stage script.fallback ≡ true

  IsLoss-IsSound :
      (p : Progress) (d : Option (String × String)) → IsSound script p → p.degraded ≡ d → IsLoss d
  IsLoss-IsSound p none s e = tt
  IsLoss-IsSound p (some (stage, why)) s e = (s.degraded_by stage why e).0

  -- What a cascade's result may be: a JSON object or array, of at least one call, and marked as
  -- degraded only by a stage that the script says it can lose.
  pub record IsPresentable (out : StageOutcome) : Type 0 where
    pub shape : is_json out.payload ≡ true
    pub paid : 1 ≤ out.calls
    pub loss : IsLoss out.degraded

  presented :
      (stages : List String) (v : Value) (p : Progress) (q : StageOutcome)
      → IsSound script p
      → is_null p.artefact ≡ false
      → present o stages p v ≡ ok q
      → IsPresentable q
  presented stages v p q s there g = elim (Bool-cases (is_json v)) [
    | inr unfit ↦ absurd (ground (arith, unfit))
    | inl fit ↦
        let out : StageOutcome = record { payload = v; degraded = p.degraded; calls = p.calls } in
        let e : present o stages p v ≡ ok out = rw fit refl in
        let final : out ≡ q = ok-injective (sym e ∙ g) in
        subst IsPresentable final (record {
          shape = fit;
          paid = s.artefact_of there;
          loss = IsLoss-IsSound p p.degraded s refl;
        })
  ]

  conclude-IsPresentable :
      (stages : List String) (p : Progress) (w : World St)
      → IsSound script p
      → AllOk IsPresentable (conclude o script stages p w).0
  unfolding conclude
  conclude-IsPresentable stages p w s q h = elim (Bool-cases (is_null p.artefact)) [
    | inl missing ↦ absurd (ground (arith, missing))
    | inr there ↦
        let shaped = shape_degraded o script p w in
        let e : (conclude o script stages p w).0
            ≡ (proceed shaped.0 (λ result. lift (present o stages p result)) shaped.1).0 =
          rw there refl in
        let (v, f, g) =
          proceed-eq-ok shaped.0 (λ result. lift (present o stages p result)) shaped.1 q
            (sym e ∙ h) in
        presented stages v p q s there g
  ]

  run_cascade-IsPresentable :
      (channel : ChannelSpec) (settings : Settings) (client_payload : Value) (stages : List String)
      (budget : Budget) (headers : Assoc String) (w : World St)
      → AllOk IsPresentable
          (run_cascade o script channel settings client_payload stages budget headers w).0
  unfolding run_cascade
  run_cascade-IsPresentable channel settings client_payload stages budget headers w =
      let ran =
        run_stages o script channel settings budget headers stages (start client_payload) w in
      proceed-AllOk_at IsPresentable ran.0 (conclude o script stages) ran.1 (λ p e.
        conclude-IsPresentable stages p ran.1 (
          run_stages-IsSound channel settings budget headers stages (start client_payload) w
            (start-IsSound client_payload) refl p e))

  cascade-IsPresentable :
      (channel : ChannelSpec) (settings : Settings) (client_payload : Value) (stages : List String)
      (w : World St)
      → AllOk IsPresentable (start_cascade o script channel settings client_payload stages w).0
  unfolding start_cascade
  cascade-IsPresentable channel settings client_payload stages w =
      let total =
        resolve_total channel.stages.budget settings.stage_budget_default
          settings.stage_budget_max in
      let budget : Budget = record { total = total; started = clock w.outside } in
      let v : World St = record w { ctx = record w.ctx { budget = some budget; stage = [] } } in
      let asked = authenticate_all o script client_payload v in
      proceed-AllOk IsPresentable asked.0
        (run_cascade o script channel settings client_payload stages budget) asked.1
        (λ headers u.
          run_cascade-IsPresentable channel settings client_payload stages budget headers u)

  -- A cascade that returns a result counts at least one request, and has sent at least as many as it
  -- counts; it returns a JSON object or array; and if the result is marked as degraded, the stage that
  -- it names is one that the script says it can lose.
  pub execute_staged-IsPresentable :
      (channel : ChannelSpec) (settings : Settings) (client_payload : Value) (w : World St)
      (out : StageOutcome)
      → (execute_staged o script channel settings client_payload w).0 ≡ ok out
      → IsPresentable out
        × (calls w.events + out.calls
            ≤ calls (execute_staged o script channel settings client_payload w).1.events)
  unfolding execute_staged start_cascade run_cascade
  execute_staged-IsPresentable channel settings client_payload w out h = (
    proceed-AllOk IsPresentable (resolve_stages script channel settings)
        (start_cascade o script channel settings client_payload) w
        (λ stages v. cascade-IsPresentable channel settings client_payload stages v) out h,
    subst
        (λ r.
          calls w.events + due (λ (q : StageOutcome). q.calls) r
          ≤ calls (execute_staged o script channel settings client_payload w).1.events)
        h (execute_staged-Pays o script channel settings client_payload w),
  )
