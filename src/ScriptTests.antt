-- ===== src/ScriptTests.antt =====
-- The theorems on script sources and on the pipeline, at concrete refs, manifests and stores.
use image_adapter.Base.{
  ℕ, String, none, some, List, [], ◌∷◌, ◌≤◌, ◌≡◌, refl, ◌↔◌, length, arith, ◌==◌, if◌then◌else◌,
}
use image_adapter.Errors.{Result, ok, err, script_source_error}
use image_adapter.Value.{str, Fields, end, field}
use image_adapter.Executor.{CompiledScript}
use image_adapter.Sample.{
  settings, no_address, one_second, no_json, headers, channel, script, vendor, world,
}
use image_adapter.Scripts.Ref.{ParsedRef, parse_ref}
use image_adapter.Scripts.Manifest.{ManifestEntry, max_alias_depth, first_name, resolve_version}
use image_adapter.Scripts.Manifest.Aliases.{IsChain, resolve_version-IsChain_iff}
use image_adapter.Scripts.Store.{ServedScript, ScriptStore, load}
use image_adapter.Scripts.Store.Precedence.{IsServed, load-IsServed}
use image_adapter.Scripts.Source.{by_ref, ScriptSource, Reach, resolve_source}
use image_adapter.Scripts.Source.Verified.{IsVerified, resolve_source-IsVerified}
use image_adapter.Scripts.Cache.{load_all}
use image_adapter.Scripts.Cache.Coherent.{load_all-compile}
use image_adapter.Api.Images.{validate_images_body}
use image_adapter.Api.Pipeline.{App, adapt}
use image_adapter.Api.Pipeline.Admitted.{IsAdmitted, adapt-IsAdmitted}

abbrev ref_text : String
ref_text = "openai/images@v1"

abbrev ref : ParsedRef
ref = record { raw = ref_text; parts = "openai" ∷ "images" ∷ []; version = some "v1" }

parse_ref_test : parse_ref ref_text ≡ ok ref
unfolding parse_ref
parse_ref_test = refl

parse_ref_traversal_test :
    parse_ref "openai/../images@v1" ≡ err (script_source_error "script_source_error")
unfolding parse_ref
parse_ref_traversal_test = refl

-- `$` also matches before a newline at the end
parse_ref_newline_test :
    parse_ref "images\n" ≡ ok (record { raw = "images\n"; parts = "images\n" ∷ []; version = none })
unfolding parse_ref
parse_ref_newline_test = refl

abbrev entry : ManifestEntry
entry = record {
  latest = none;
  aliases = ("stable", "v2") ∷ ("v2", "v2.1") ∷ ("a", "b") ∷ ("b", "a") ∷ [];
  digests = [];
}

resolve_version_test : resolve_version entry "stable" ≡ some "v2.1"
unfolding resolve_version
resolve_version_test = refl

resolve_version_cycle_test : resolve_version entry "a" ≡ none
unfolding resolve_version
resolve_version_cycle_test = refl

resolve_version-IsChain_iff_example :
    (resolve_version entry "stable" ≡ some "v2.1")
    ↔ ((n : ℕ) × (n ≤ max_alias_depth) × IsChain entry.aliases n (first_name entry "stable") "v2.1")
resolve_version-IsChain_iff_example = resolve_version-IsChain_iff entry "stable" "v2.1"

-- an overlay without the ref, and an image root that only has it at `@stable`
abbrev overlay : ScriptStore
overlay wanted = ok none

abbrev image_root : ScriptStore
image_root wanted = elim wanted.version [
  | some version ↦ ok (if version == "stable" then some "text" else none)
  | none ↦ ok none
]

abbrev stores : List ScriptStore
stores = overlay ∷ image_root ∷ []

abbrev served : ServedScript
served = record { text = "text"; requested = ref_text; served = "openai/images@stable" }

load_test : load stores ref ≡ ok served
unfolding load
load_test = refl

load-IsServed_example : IsServed stores ref served
load-IsServed_example = load-IsServed stores ref served load_test

abbrev reach : Reach
reach = record {
  byte_length = λ text. 4;
  digest = λ text. text;
  b64decode = λ text. none;
  decode = λ bytes. none;
  ip_address = no_address;
  fetch = λ url. err (script_source_error "script_fetch_failed");
  store = load stores;
}

abbrev source : ScriptSource
source = record {
  text = "text";
  sha256 = "text";
  origin = by_ref;
  ref = some ref_text;
  fallback_to = some "openai/images@stable";
}

resolve_source_test : resolve_source reach channel settings ≡ ok source
unfolding resolve_source load image_adapter.Settings.host_set
resolve_source_test = refl

resolve_source-IsVerified_example : IsVerified reach channel settings source
resolve_source-IsVerified_example =
    resolve_source-IsVerified reach channel settings source resolve_source_test

abbrev compile : String → Result CompiledScript
compile text = ok script

same_text : (s t : String) → s ≡ t → s ≡ t
same_text s t e = e

load_all-compile_example :
    ((load_all compile 1 (source ∷ source ∷ []) []).0 ≡ ok script ∷ ok script ∷ [])
    × (length (load_all compile 1 (source ∷ source ∷ []) []).1 ≤ 1)
load_all-compile_example =
    load_all-compile (λ text. text) same_text compile 1 (source ∷ source ∷ []) (refl, (refl, tt))

abbrev app : App
app = record {
  settings = settings;
  float_of = one_second;
  json_of = no_json;
  reach = reach;
  compile = compile;
  cache_size = 1;
  base = vendor;
  transforms = λ text. vendor.transform;
}

abbrev request : Fields
request = field "prompt" (str "a cat") end

abbrev prepare : Fields → Result Fields
prepare = validate_images_body (λ v. "")

adapt-IsAdmitted_example :
    IsAdmitted app prepare same_text headers request world
      (adapt app prepare headers request [] world)
adapt-IsAdmitted_example =
    adapt-IsAdmitted app prepare same_text headers request [] world
      (record { compiled = tt; bounded = omega arith })
