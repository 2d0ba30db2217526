-- ===== src/Declarations/Checked.antt =====
-- What a compiled script's declarations satisfy.
use mathlib.Core.Path.{subst}
use image_adapter.Base.{
  ◌≤◌, ◌≡◌, refl, String, true, false, List, [], ◌∷◌, ltb, length, all, elem, distinct, is_empty,
  arith, Bool-cases, inl, inr,
}
use image_adapter.Errors.{ok-injective, ok, >>=-inversion}
use image_adapter.StageSpec.{is_stage_name}
use image_adapter.Value.{Value, null, skip, bool, int, float, str, bytes, list, dict}
use image_adapter.Executor.{CompiledScript}
use image_adapter.Declarations.{
  default_phases, known_phases, max_declared_stages, names_of, lowered, check_phases, parse_phases,
  check_stages, parse_stages, check_fallback, parse_fallback, declare,
}

-- the first of the stages cannot be lost
abbrev pub KeepsFirst : List String → List String → Type 0
KeepsFirst fallback [] = fallback ≡ []
KeepsFirst fallback (first ∷ rest) = elem first fallback ≡ false

-- Declarations that the engine can run.
pub record IsRunnable (script : CompiledScript) : Type 0 where
  pub known : all (λ p. elem p known_phases) script.phases ≡ true
  pub required : all (λ p. elem p script.phases) default_phases ≡ true
  pub names : all is_stage_name script.stages ≡ true
  pub different : distinct script.stages ≡ true
  pub few : length script.stages ≤ max_declared_stages
  pub declared : all (λ name. elem name script.stages) script.fallback ≡ true
  pub first : KeepsFirst script.fallback script.stages

abbrev ArePhases : List String → Type 0
ArePhases phases =
    (all (λ p. elem p known_phases) phases ≡ true)
    × (all (λ p. elem p phases) default_phases ≡ true)

abbrev AreStages : List String → Type 0
AreStages stages =
    (all is_stage_name stages ≡ true)
    × (distinct stages ≡ true)
    × (length stages ≤ max_declared_stages)

abbrev AreFallback : List String → List String → Type 0
AreFallback fallback stages =
    (all (λ name. elem name stages) fallback ≡ true) × KeepsFirst fallback stages

check_phases-ArePhases :
    (names phases : List String) → check_phases names ≡ ok phases → ArePhases phases
unfolding check_phases
check_phases-ArePhases names phases h = elim (Bool-cases (all (λ p. elem p known_phases) names)) [
  | inr strange ↦ absurd (ground (arith, strange))
  | inl known ↦ elim (Bool-cases (all (λ p. elem p names) default_phases)) [
    | inr missing ↦ absurd (ground (arith, known, missing))
    | inl there ↦
        let final : names ≡ phases = ground (arith, known, there) in
        subst ArePhases final (known, there)
  ]
]

check_stages-AreStages :
    (names stages : List String) → check_stages names ≡ ok stages → AreStages stages
unfolding check_stages
check_stages-AreStages names stages h = elim (Bool-cases (all is_stage_name names)) [
  | inr strange ↦ absurd (ground (arith, strange))
  | inl shaped ↦ elim (Bool-cases (distinct names)) [
    | inr twice ↦ absurd (ground (arith, shaped, twice))
    | inl apart ↦ elim (Bool-cases (ltb max_declared_stages (length names))) [
      | inl many ↦ absurd (ground (arith, shaped, apart, many))
      | inr few ↦
          let final : names ≡ stages = ground (arith, shaped, apart, few) in
          subst AreStages final (shaped, apart, ground (arith, few))
    ]
  ]
]

check_fallback-AreFallback :
    (names stages fallback : List String)
    → check_fallback names stages ≡ ok fallback
    → AreFallback fallback stages
unfolding check_fallback
check_fallback-AreFallback names [] fallback h = absurd (cc)
check_fallback-AreFallback names (first ∷ rest) fallback h =
    elim (Bool-cases (all (λ name. elem name (first ∷ rest)) names)) [
      | inr strange ↦ absurd (ground (arith, strange))
      | inl known ↦ elim (Bool-cases (elem first names)) [
        | inl lost ↦ absurd (ground (arith, known, lost))
        | inr kept ↦
            let final : names ≡ fallback = ground (arith, known, kept) in
            subst (λ x. AreFallback x (first ∷ rest)) final (known, kept)
      ]
    ]

no_fallback : (stages : List String) → AreFallback [] stages
no_fallback [] = (refl, refl)
no_fallback (first ∷ rest) = (refl, refl)

parse_phases-ArePhases :
    (show : Value → String) (declared : Value) (phases : List String)
    → parse_phases show declared ≡ ok phases
    → ArePhases phases
unfolding parse_phases
parse_phases-ArePhases show null phases h = subst ArePhases (ok-injective h) (refl, refl)
parse_phases-ArePhases show (list l) phases h =
    check_phases-ArePhases (lowered (names_of show l)) phases h
parse_phases-ArePhases show skip phases h = absurd (cc)
parse_phases-ArePhases show (bool b) phases h = absurd (cc)
parse_phases-ArePhases show (int n) phases h = absurd (cc)
parse_phases-ArePhases show (float x) phases h = absurd (cc)
parse_phases-ArePhases show (str s) phases h = absurd (cc)
parse_phases-ArePhases show (bytes b) phases h = absurd (cc)
parse_phases-ArePhases show (dict d) phases h = absurd (cc)

parse_stages-AreStages :
    (show : Value → String) (declared : Value) (stages : List String)
    → parse_stages show declared ≡ ok stages
    → AreStages stages
unfolding parse_stages
parse_stages-AreStages show null stages h =
    subst AreStages (ok-injective h) (refl, refl, omega arith)
parse_stages-AreStages show (list l) stages h = check_stages-AreStages (names_of show l) stages h
parse_stages-AreStages show skip stages h = absurd (cc)
parse_stages-AreStages show (bool b) stages h = absurd (cc)
parse_stages-AreStages show (int n) stages h = absurd (cc)
parse_stages-AreStages show (float x) stages h = absurd (cc)
parse_stages-AreStages show (str s) stages h = absurd (cc)
parse_stages-AreStages show (bytes b) stages h = absurd (cc)
parse_stages-AreStages show (dict d) stages h = absurd (cc)

parse_fallback-AreFallback :
    (show : Value → String) (declared : Value) (stages fallback : List String)
    → parse_fallback show declared stages ≡ ok fallback
    → AreFallback fallback stages
unfolding parse_fallback
parse_fallback-AreFallback show null stages fallback h =
    subst (λ x. AreFallback x stages) (ok-injective h) (no_fallback stages)
parse_fallback-AreFallback show (list l) stages fallback h =
    elim (Bool-cases (is_empty (names_of show l))) [
      | inl nothing ↦
          let final : [] ≡ fallback = ground (arith, nothing) in
          subst (λ x. AreFallback x stages) final (no_fallback stages)
      | inr something ↦
          check_fallback-AreFallback (names_of show l) stages fallback (ground (arith, something))
    ]
parse_fallback-AreFallback show skip stages fallback h = absurd (cc)
parse_fallback-AreFallback show (bool b) stages fallback h = absurd (cc)
parse_fallback-AreFallback show (int n) stages fallback h = absurd (cc)
parse_fallback-AreFallback show (float x) stages fallback h = absurd (cc)
parse_fallback-AreFallback show (str s) stages fallback h = absurd (cc)
parse_fallback-AreFallback show (bytes b) stages fallback h = absurd (cc)
parse_fallback-AreFallback show (dict d) stages fallback h = absurd (cc)

-- Whatever a script declares, if it is accepted: its phases are known ones and include request and
-- response; its stages have names of the allowed alphabet, differ and are at most eight; and the
-- stages that it says it can lose are stages of its own and not the first one.
pub declare-IsRunnable :
    (show : Value → String) (phases stages fallback : Value) (script : CompiledScript)
    → declare show phases stages fallback ≡ ok script
    → IsRunnable script
unfolding declare
declare-IsRunnable show phases_declared stages_declared fallback_declared script h =
    >>=-inversion (parse_phases show phases_declared) _ h λ phases e1 h1.
      >>=-inversion (parse_stages show stages_declared) _ h1 λ stages e2 h2.
        >>=-inversion (parse_fallback show fallback_declared stages) _ h2 λ fallback e3 h3.
          let (a, b) = parse_phases-ArePhases show phases_declared phases e1 in
          let (c, d, e) = parse_stages-AreStages show stages_declared stages e2 in
          let (f, g) = parse_fallback-AreFallback show fallback_declared stages fallback e3 in
          subst IsRunnable (ok-injective h3) (record {
            known = a;
            required = b;
            names = c;
            different = d;
            few = e;
            declared = f;
            first = g;
          })
