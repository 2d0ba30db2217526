-- ===== src/Scripts/Source/Verified.antt =====
-- What a resolved script is.
use image_adapter.Base.{
  ℕ, ◌≤◌, String, true, false, not, ◌&&◌, Option, none, some, ltb, elem, is_empty, Bool-cases,
  Option-cases, inl, inr, ◌⊎◌, ◌≡◌, refl, sym, ap, ◌∙◌, arith, eq_iff,
}
use mathlib.Core.Path.{subst}
use image_adapter.Text.{strip, lower, blank}
use image_adapter.Errors.{
  ok-injective, ok, >>=-inversion, refuse_if-eq-ok, script_source_error, script_policy_error,
}
use image_adapter.Value.{Bytes}
use image_adapter.Url.{ParsedUrl, urlparse, hostname}
use image_adapter.UrlGuard.{check_url}
use image_adapter.UrlGuard.Guards.{IsOutbound, check_url-IsOutbound}
use image_adapter.Settings.{Settings, remote_host_set, sha256_allowlist}
use image_adapter.Channel.{ChannelSpec}
use image_adapter.Scripts.Ref.{ParsedRef, parse_ref}
use image_adapter.Scripts.Store.{ServedScript}
use image_adapter.Scripts.Source.{
  Origin, inline, base64, by_ref, remote, ScriptSource, Reach, enforce_size, differs_from_pin,
  verify_source, source_of, admit, resolve_inline, or_refuse, resolve_base64, parsed_or_crash,
  is_remote, resolve_remote, resolve_named, resolve_ref, resolve_source,
}

abbrev pub limit_of : Settings → Origin → ℕ
limit_of settings inline = settings.max_inline_script_bytes
limit_of settings base64 = settings.max_inline_script_bytes
limit_of settings by_ref = settings.max_script_bytes
limit_of settings remote = settings.max_script_bytes

module _ (reach : Reach) (spec : ChannelSpec) (settings : Settings) where
  -- Where a text of an origin comes from, and what allows it.
  abbrev pub IsFrom : Origin → String → Type 0
  IsFrom inline text = (settings.allow_inline_script ≡ true) × (spec.inline_script ≡ some text)
  IsFrom base64 text =
      (settings.allow_inline_script ≡ true)
      × ((encoded : String) × (raw : Bytes) × (spec.script_b64 ≡ some encoded)
          × (reach.b64decode encoded ≡ some raw)
          × (reach.decode raw ≡ some text))
  IsFrom by_ref text =
      (ref : String) × (parsed : ParsedRef) × (served : ServedScript) × (spec.script_ref ≡ some ref)
      × (parse_ref ref ≡ ok parsed)
      × (reach.store parsed ≡ ok served)
      × (served.text ≡ text)
  IsFrom remote text =
      (settings.allow_remote_script ≡ true)
      × ((ref : String) × (parsed : ParsedUrl) × (spec.script_ref ≡ some ref)
          × IsOutbound reach.ip_address settings (strip ref)
          × (urlparse (strip ref) ≡ some parsed)
          × ((is_empty (remote_host_set settings) ≡ true)
              ⊎ (elem (lower (hostname parsed)) (remote_host_set settings) ≡ true))
          × (reach.fetch (strip ref) ≡ ok text))

  pub record IsVerified (source : ScriptSource) : Type 0 where
    pub digest : source.sha256 ≡ reach.digest source.text
    pub pinned :
        (pin : String) → spec.script_sha256 ≡ some pin → blank pin ≡ false → source.sha256 ≡ pin
    pub listed :
        (is_empty (sha256_allowlist settings) ≡ true)
        ⊎ (elem source.sha256 (sha256_allowlist settings) ≡ true)
    pub bounded : reach.byte_length source.text ≤ limit_of settings source.origin
    pub origin : IsFrom source.origin source.text

  verify_source-eq-ok :
      (source out : ScriptSource)
      → verify_source reach source spec settings ≡ ok out
      → (source ≡ out)
        × (differs_from_pin reach spec.script_sha256 source.sha256 ≡ false)
        × ((is_empty (sha256_allowlist settings) ≡ true)
            ⊎ (elem source.sha256 (sha256_allowlist settings) ≡ true))
  unfolding verify_source
  verify_source-eq-ok source out h = (ground (arith, h), ground (arith, h), ground (arith, h))

  admit-IsVerified :
      (text : String) (origin : Origin) (ref fallback_to : Option String) (out : ScriptSource)
      → IsFrom origin text
      → admit reach text (limit_of settings origin) origin ref fallback_to spec settings ≡ ok out
      → IsVerified out
  unfolding admit enforce_size
  admit-IsVerified text origin ref fallback_to out from h =
      let source = source_of reach text origin ref fallback_to in
      let (fits, h1) =
        refuse_if-eq-ok (ltb (limit_of settings origin) (reach.byte_length text))
          (script_source_error "script_too_large") (verify_source reach source spec settings) h in
      let (same, pin, listed) = verify_source-eq-ok source out h1 in
      subst IsVerified same (record {
        digest = refl;
        pinned = λ p e full. ground (arith, e, full, pin, eq_iff source.sha256 p);
        listed = listed;
        bounded = ground (arith, fits);
        origin = from;
      })

  or_refuse-eq-ok : {A : Type 0} (o : Option A) (a : A) → or_refuse reach o ≡ ok a → o ≡ some a
  or_refuse-eq-ok none a h = absurd (cc)
  or_refuse-eq-ok (some b) a h = ap (λ x. some x) (ok-injective h)

  parsed_or_crash-eq-ok :
      (o : Option ParsedUrl) (parsed : ParsedUrl)
      → parsed_or_crash reach o ≡ ok parsed
      → o ≡ some parsed
  parsed_or_crash-eq-ok none parsed h = absurd (cc)
  parsed_or_crash-eq-ok (some found) parsed h = ap (λ x. some x) (ok-injective h)

  resolve_inline-IsVerified :
      (text : String) (out : ScriptSource)
      → spec.inline_script ≡ some text
      → resolve_inline reach text spec settings ≡ ok out
      → IsVerified out
  unfolding resolve_inline
  resolve_inline-IsVerified text out is h =
      let (allowed, h1) =
        refuse_if-eq-ok (not settings.allow_inline_script) script_policy_error _ h in
      admit-IsVerified text inline none none out (ground (arith, allowed), is) h1

  resolve_base64-IsVerified :
      (encoded : String) (out : ScriptSource)
      → spec.script_b64 ≡ some encoded
      → resolve_base64 reach encoded spec settings ≡ ok out
      → IsVerified out
  unfolding resolve_base64
  resolve_base64-IsVerified encoded out is h =
      let (allowed, h1) =
        refuse_if-eq-ok (not settings.allow_inline_script) script_policy_error _ h in
      >>=-inversion (or_refuse reach (reach.b64decode encoded)) _ h1 λ raw e h2.
        >>=-inversion (or_refuse reach (reach.decode raw)) _ h2 λ text e2 h3.
          admit-IsVerified text base64 none none out
            (
              ground (arith, allowed),
              (encoded, raw, is, or_refuse-eq-ok _ raw e, or_refuse-eq-ok _ text e2),
            )
            h3

  resolve_remote-IsVerified :
      (ref : String) (out : ScriptSource)
      → spec.script_ref ≡ some ref
      → resolve_remote reach ref spec settings ≡ ok out
      → IsVerified out
  unfolding resolve_remote
  resolve_remote-IsVerified ref out is h =
      let (allowed, h1) =
        refuse_if-eq-ok (not settings.allow_remote_script) script_policy_error _ h in
      >>=-inversion (check_url reach.ip_address ref settings "X-Script-Ref") _ h1 λ url checked h2.
        >>=-inversion (parsed_or_crash reach (urlparse url)) _ h2 λ parsed e h3.
          let (host, h4) =
            refuse_if-eq-ok
              (not (is_empty (remote_host_set settings))
                && not (elem (lower (hostname parsed)) (remote_host_set settings)))
              script_policy_error _ h3 in
          let (same, outbound) =
            check_url-IsOutbound reach.ip_address settings ref "X-Script-Ref" url checked in
          >>=-inversion (reach.fetch url) _ h4 λ text fetched h5.
            admit-IsVerified text remote (some ref) none out
              (
                ground (arith, allowed),
                (
                  ref,
                  parsed,
                  is,
                  outbound,
                  ap urlparse (sym same) ∙ parsed_or_crash-eq-ok (urlparse url) parsed e,
                  ground (arith, host),
                  ap reach.fetch (sym same) ∙ fetched,
                ),
              )
              h5

  resolve_named-IsVerified :
      (ref : String) (out : ScriptSource)
      → spec.script_ref ≡ some ref
      → resolve_named reach ref spec settings ≡ ok out
      → IsVerified out
  unfolding resolve_named
  resolve_named-IsVerified ref out is h = >>=-inversion (parse_ref ref) _ h λ parsed e h1.
      >>=-inversion (reach.store parsed) _ h1 λ served e2 h2.
        admit-IsVerified served.text by_ref (some ref) _ out (ref, parsed, served, is, e, e2, refl)
          h2

  resolve_ref-IsVerified :
      (ref : String) (out : ScriptSource)
      → spec.script_ref ≡ some ref
      → resolve_ref reach ref spec settings ≡ ok out
      → IsVerified out
  unfolding resolve_ref
  resolve_ref-IsVerified ref out is h = elim (Bool-cases (blank ref)) [
    | inl empty ↦ absurd (ground (arith, h, empty))
    | inr full ↦ >>=-inversion (parsed_or_crash reach (urlparse ref)) _ (rw full at h) λ parsed e k.
        elim (Bool-cases (is_remote reach parsed)) [
          | inl yes_remote ↦ resolve_remote-IsVerified ref out is (rw yes_remote at k)
          | inr no_remote ↦ resolve_named-IsVerified ref out is (rw no_remote at k)
        ]
  ]

  -- A script that is resolved has the digest of its text; it is the one that the channel pins, if it
  -- pins one, and on the allowlist, if there is one; its text is within the limit for its origin. An
  -- inline or base64 script was sent in its header and inline scripts are allowed; a named one is what
  -- the stores serve for the parsed ref; a remote one was fetched from a URL that passes the guards for
  -- outgoing URLs, its host is one of those that the deployment names for scripts, if it names any, and
  -- remote scripts are allowed.
  pub resolve_source-IsVerified :
      (source : ScriptSource) → resolve_source reach spec settings ≡ ok source → IsVerified source
  unfolding resolve_source
  resolve_source-IsVerified source h = elim (Option-cases spec.inline_script) [
    | inr (text, is) ↦ resolve_inline-IsVerified text source is (rw is at h)
    | inl no_inline ↦ elim (Option-cases spec.script_b64) [
      | inr (encoded, is) ↦ resolve_base64-IsVerified encoded source is (rw (no_inline, is) at h)
      | inl no_base64 ↦ elim (Option-cases spec.script_ref) [
        | inr (ref, is) ↦ resolve_ref-IsVerified ref source is (rw (no_inline, no_base64, is) at h)
        | inl no_ref ↦ absurd (ground (arith, h, no_inline, no_base64, no_ref))
      ]
    ]
  ]
