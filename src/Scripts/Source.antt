-- ===== src/Scripts/Source.antt =====
-- adapter/script_source.py: resolve_source. Hashing, UTF-8 and base64 are parameters, as are the fetch of
-- a remote script and the chain of stores.
pub mod Verified
use image_adapter.Base.{
  ℕ, String, Bool, true, false, not, ◌&&◌, ◌||◌, Option, none, some, List, [], ◌∷◌, ltb, ◌==◌, elem,
  is_empty, if◌then◌else◌,
}
use image_adapter.Text.{lower, blank}
use image_adapter.Errors.{
  Result, ok, err, crash, ◌>>=◌, ◌>>◌, refuse_if, script_source_error, script_policy_error,
}
use image_adapter.Value.{Bytes}
use image_adapter.Url.{ParsedUrl, urlparse, hostname}
use image_adapter.UrlGuard.{IpAddress, check_url}
use image_adapter.Settings.{Settings, remote_host_set, sha256_allowlist}
use image_adapter.Channel.{ChannelSpec}
use image_adapter.Scripts.Ref.{ParsedRef, parse_ref}
use image_adapter.Scripts.Store.{ServedScript, degraded}

pub data Origin : Type 0 where
  inline : Origin
  base64 : Origin
  by_ref : Origin
  remote : Origin

pub record ScriptSource : Type 0 where
  pub text : String
  pub sha256 : String
  pub origin : Origin
  pub ref : Option String
  pub fallback_to : Option String

-- The library functions, and what reaches outside the process.
pub record Reach : Type 0 where
  pub byte_length : String → ℕ
  pub digest : String → String
  pub b64decode : String → Option Bytes
  pub decode : Bytes → Option String
  pub ip_address : String → Option IpAddress
  pub fetch : String → Result String
  pub store : ParsedRef → Result ServedScript

module _ (reach : Reach) where
  -- _enforce_size
  unfoldable pub enforce_size : String → ℕ → Result (Unit {0})
  enforce_size text limit =
      refuse_if (ltb limit (reach.byte_length text)) (script_source_error "script_too_large")

  abbrev pub differs_from_pin : Option String → String → Bool
  differs_from_pin none sha256 = false
  differs_from_pin (some pin) sha256 = not (blank pin) && not (sha256 == pin)

  -- _verify
  unfoldable pub verify_source : ScriptSource → ChannelSpec → Settings → Result ScriptSource
  verify_source source spec settings =
      if differs_from_pin spec.script_sha256 source.sha256
      then err (script_source_error "script_integrity_error")
      else if not (is_empty (sha256_allowlist settings))
          && not (elem source.sha256 (sha256_allowlist settings))
      then err script_policy_error
      else ok source

  abbrev pub source_of : String → Origin → Option String → Option String → ScriptSource
  source_of text origin ref fallback_to = record {
    text = text;
    sha256 = reach.digest text;
    origin = origin;
    ref = ref;
    fallback_to = fallback_to;
  }

  -- the size of a text, then its digest
  unfoldable pub admit :
      String
      → ℕ
      → Origin
      → Option String
      → Option String
      → ChannelSpec
      → Settings
      → Result ScriptSource
  unfolding enforce_size verify_source
  admit text limit origin ref fallback_to spec settings = do
    enforce_size text limit
    verify_source (source_of text origin ref fallback_to) spec settings

  unfoldable pub resolve_inline : String → ChannelSpec → Settings → Result ScriptSource
  unfolding admit
  resolve_inline text spec settings = do
    refuse_if (not settings.allow_inline_script) script_policy_error
    admit text settings.max_inline_script_bytes inline none none spec settings

  -- `none` is a failure of b64decode or of the decoder
  abbrev pub or_refuse : {A : Type 0} → Option A → Result A
  or_refuse none = err (script_source_error "script_source_error")
  or_refuse (some a) = ok a

  unfoldable pub resolve_base64 : String → ChannelSpec → Settings → Result ScriptSource
  unfolding admit
  resolve_base64 encoded spec settings = do
    refuse_if (not settings.allow_inline_script) script_policy_error
    raw ← or_refuse (reach.b64decode encoded)
    text ← or_refuse (reach.decode raw)
    admit text settings.max_inline_script_bytes base64 none none spec settings

  -- urlparse(v); a ValueError is not caught
  abbrev pub parsed_or_crash : Option ParsedUrl → Result ParsedUrl
  parsed_or_crash none = crash
  parsed_or_crash (some parsed) = ok parsed

  abbrev pub is_remote : ParsedUrl → Bool
  is_remote parsed = elem parsed.scheme ("http" ∷ "https" ∷ [])

  unfoldable pub resolve_remote : String → ChannelSpec → Settings → Result ScriptSource
  unfolding admit check_url urlparse hostname lower
  resolve_remote ref spec settings = do
    refuse_if (not settings.allow_remote_script) script_policy_error
    url ← check_url reach.ip_address ref settings "X-Script-Ref"
    parsed ← parsed_or_crash (urlparse url)
    refuse_if
        (not (is_empty (remote_host_set settings))
          && not (elem (lower (hostname parsed)) (remote_host_set settings)))
        script_policy_error
    text ← reach.fetch url
    admit text settings.max_script_bytes remote (some ref) none spec settings

  unfoldable pub resolve_named : String → ChannelSpec → Settings → Result ScriptSource
  unfolding admit parse_ref
  resolve_named ref spec settings = do
    parsed ← parse_ref ref
    served ← reach.store parsed
    admit served.text settings.max_script_bytes by_ref (some ref)
        (if degraded served then some served.served else none) spec settings

  unfoldable pub resolve_ref : String → ChannelSpec → Settings → Result ScriptSource
  unfolding urlparse resolve_remote resolve_named
  resolve_ref ref spec settings =
      if blank ref
      then err (script_source_error "script_source_error")
      else parsed_or_crash (urlparse ref) >>= λ parsed.
          if is_remote parsed
          then resolve_remote ref spec settings
          else resolve_named ref spec settings

  -- resolve_source
  unfoldable pub resolve_source : ChannelSpec → Settings → Result ScriptSource
  unfolding resolve_inline resolve_base64 resolve_ref
  resolve_source spec settings = elim spec.inline_script [
    | some text ↦ resolve_inline text spec settings
    | none ↦ elim spec.script_b64 [
      | some encoded ↦ resolve_base64 encoded spec settings
      | none ↦ elim spec.script_ref [
        | none ↦ err (script_source_error "script_source_error")
        | some ref ↦ resolve_ref ref spec settings
      ]
    ]
  ]
