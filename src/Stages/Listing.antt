-- ===== src/Stages/Listing.antt =====
-- Which stages a cascade runs.
use mathlib.Core.Path.{subst}
use image_adapter.Base.{
  ◌≡◌, ◌≤◌, sym, ◌⊎◌, inl, inr, true, String, List, [], ◌∷◌, elem, All, length, is_empty, ltb,
  arith, Bool-cases,
}
use image_adapter.Errors.{ok}
use image_adapter.Settings.{Settings}
use image_adapter.Channel.{ChannelSpec}
use image_adapter.Executor.{CompiledScript}
use image_adapter.Stages.{declares_all, within_count, resolve_stages}

-- A list of stages that the engine may run: the script's own, or the channel's if the script declares
-- each of them.
pub record IsRunList (script : CompiledScript) (channel : ChannelSpec) (settings : Settings)
    (stages : List String) : Type 0 where
  pub few : length stages ≤ settings.stage_max_count
  pub source :
      (stages ≡ script.stages)
      ⊎ ((stages ≡ channel.stages.names) × All (λ s. elem s script.stages ≡ true) stages)

declares_all-All :
    (stages names : List String)
    → declares_all stages names ≡ true
    → All (λ s. elem s names ≡ true) stages
unfolding declares_all
declares_all-All [] names h = tt
declares_all-All (stage ∷ stages) names h =
    (ground (arith, h), declares_all-All stages names (ground (arith, h)))

within_count-eq-ok :
    (settings : Settings) (stages out : List String)
    → within_count settings stages ≡ ok out
    → (stages ≡ out) × (length stages ≤ settings.stage_max_count)
within_count-eq-ok settings stages out h =
    elim (Bool-cases (ltb settings.stage_max_count (length stages))) [
      | inl many ↦ absurd (ground (arith, many))
      | inr few ↦ (ground (arith, few), ground (arith, few))
    ]

-- The stages of a cascade are within the deployment's limit, and they are the script's, or the
-- channel's in the channel's order, each of which the script declares.
resolve_stages-IsRunList :
    (script : CompiledScript) (channel : ChannelSpec) (settings : Settings) (stages : List String)
    → resolve_stages script channel settings ≡ ok stages
    → IsRunList script channel settings stages
unfolding resolve_stages
resolve_stages-IsRunList script channel settings stages h =
    elim (Bool-cases (is_empty channel.stages.names)) [
      | inl own ↦
          let (same, few) =
            within_count-eq-ok settings script.stages stages (ground (arith, own)) in
          record {
            few = subst (λ x. length x ≤ settings.stage_max_count) same few;
            source = inl (sym same);
          }
      | inr named ↦ elim (Bool-cases (is_empty script.stages)) [
        | inl unstaged ↦ absurd (ground (arith, named, unstaged))
        | inr some_own ↦ elim (Bool-cases (declares_all channel.stages.names script.stages)) [
          | inr unknown ↦ absurd (ground (arith, named, some_own, unknown))
          | inl known ↦
              let (same, few) =
                within_count-eq-ok settings channel.stages.names stages
                  (ground (arith, named, some_own, known)) in
              record {
                few = subst (λ x. length x ≤ settings.stage_max_count) same few;
                source = inr (
                  sym same,
                  subst (All (λ s. elem s script.stages ≡ true)) same
                      (declares_all-All channel.stages.names script.stages known),
                );
              }
        ]
      ]
    ]
