-- ===== src/StageTests.antt =====
-- The list of stages, at the sample script.
use image_adapter.Base.{[], ◌∷◌, ◌≡◌, refl}
use image_adapter.Errors.{ok}
use image_adapter.Channel.{ChannelSpec}
use image_adapter.Stages.{resolve_stages}
use image_adapter.Sample.{settings, channel, script}

-- a channel that runs the second stage alone
abbrev trimmed_channel : ChannelSpec
trimmed_channel = record channel { stages = record channel.stages { names = "upscale" ∷ [] } }

resolve_stages_test : resolve_stages script trimmed_channel settings ≡ ok ("upscale" ∷ [])
unfolding resolve_stages
resolve_stages_test = refl
