-- ===== src/Scripts/Manifest.antt =====
-- adapter/scriptstore/manifest.py: aliases and digests of one root. Digests of a text are a parameter.
pub mod Aliases
use image_adapter.Base.{
  ℕ, zero, suc, String, Bool, true, false, not, ◌&&◌, ◌||◌, Option, none, some, List, [], ◌∷◌, ◌==◌,
  Assoc, lookup, elem, is_some, if◌then◌else◌,
}
use image_adapter.Text.{strip, lower, blank, append, join}
use image_adapter.Errors.{Result, ok, err, script_source_error}
use image_adapter.Value.{Value, str, dict, Fields, end, field, get, get_or_null}
use image_adapter.Scripts.Ref.{ParsedRef}

abbrev pub max_alias_depth : ℕ
max_alias_depth = 8

abbrev pub latest_alias : String
latest_alias = "latest"

abbrev pub stable_alias : String
stable_alias = "stable"

pub record ManifestEntry : Type 0 where
  pub latest : Option String
  pub aliases : Assoc String
  pub digests : Assoc String

-- the `while`: `left` more names may be seen
unfoldable pub follow : Assoc String → List String → ℕ → String → Option String
unfolding lookup
follow aliases seen zero current = elim (lookup current aliases) [
  | none ↦ some current
  | some next ↦ none
]
follow aliases seen (suc left) current = elim (lookup current aliases) [
  | none ↦ some current
  | some next ↦ if elem current seen then none else follow aliases (current ∷ seen) left next
]

-- the implicit alias `latest`
abbrev pub first_name : ManifestEntry → String → String
first_name entry name = elim (lookup name entry.aliases) [
  | some next ↦ name
  | none ↦ elim entry.latest [
    | none ↦ name
    | some latest ↦ if name == latest_alias && not (blank latest) then latest else name
  ]
]

-- ManifestEntry.resolve_version
unfoldable pub resolve_version : ManifestEntry → String → Option String
unfolding lookup follow
resolve_version entry name = follow entry.aliases [] max_alias_depth (first_name entry name)

-- ManifestEntry.defines
unfoldable pub defines : ManifestEntry → String → Bool
unfolding resolve_version
defines entry alias = elim (resolve_version entry alias) [
  | none ↦ false
  | some resolved ↦ not (resolved == alias)
]

abbrev pub Manifest : Type 0
Manifest = Assoc ManifestEntry

-- Manifest.entry_for
unfoldable pub entry_for : Manifest → ParsedRef → Option ManifestEntry
unfolding lookup join
entry_for manifest ref = lookup (join "/" ref.parts) manifest

abbrev pub version_of : ParsedRef → String
version_of ref = elim ref.version [ none ↦ "" | some version ↦ version ]

abbrev pub with_version : ParsedRef → Option String → ParsedRef
with_version ref none = ref
with_version ref (some resolved) =
    if resolved == version_of ref then ref else record ref { version = some resolved }

-- Manifest.resolve
unfoldable pub resolve_ref : Manifest → ParsedRef → ParsedRef
unfolding entry_for resolve_version
resolve_ref manifest ref = elim (entry_for manifest ref) [
  | none ↦ ref
  | some entry ↦
      if blank (version_of ref)
      then ref
      else with_version ref (resolve_version entry (version_of ref))
]

-- Manifest.expected_digest
unfoldable pub expected_digest : Manifest → ParsedRef → Option String
unfolding entry_for lookup
expected_digest manifest ref = elim (entry_for manifest ref) [
  | none ↦ none
  | some entry ↦ if blank (version_of ref) then none else lookup (version_of ref) entry.digests
]

-- Manifest.verify
unfoldable pub verify_manifest :
    (String → String) → Manifest → ParsedRef → String → Bool → Result (Unit {0})
unfolding expected_digest
verify_manifest digest manifest ref text enabled =
    if not enabled then ok tt else elim (expected_digest manifest ref) [
      | none ↦ ok tt
      | some expected ↦
          if blank expected || digest text == expected
          then ok tt
          else err (script_source_error "script_integrity_error")
    ]

-- _parse_aliases
unfoldable pub parse_aliases : Fields → Assoc String
parse_aliases end = []
parse_aliases (field key (str version) rest) =
    let others = parse_aliases rest in if blank version then others else (key, version) ∷ others
parse_aliases (field key value rest) = parse_aliases rest

-- _parse_digests
unfoldable pub parse_digests : Fields → Assoc String
unfolding strip lower
parse_digests end = []
parse_digests (field key (str digest) rest) =
    let others = parse_digests rest in
    if blank (strip digest) then others else (key, lower (strip digest)) ∷ others
parse_digests (field key value rest) = parse_digests rest

-- the fields of a dict; none for anything else
abbrev pub fields_of : Value → Fields
fields_of (dict fields) = fields
fields_of v = end

abbrev pub latest_of : Value → Option String
latest_of (str version) = if blank version then none else some version
latest_of v = none

unfoldable pub parse_entry : Fields → ManifestEntry
unfolding get parse_aliases parse_digests
parse_entry entry = record {
  latest = latest_of (get_or_null "latest" entry);
  aliases = parse_aliases (fields_of (get_or_null "aliases" entry));
  digests = parse_digests (fields_of (get_or_null "digests" entry));
}

unfoldable pub parse_entries : Fields → Manifest
unfolding parse_entry
parse_entries end = []
parse_entries (field key (dict entry) rest) = (key, parse_entry entry) ∷ parse_entries rest
parse_entries (field key value rest) = parse_entries rest

-- `loads` fails on a text that is no JSON
unfoldable pub parse_manifest : (String → Option Value) → String → Manifest
unfolding get parse_entries
parse_manifest loads text = elim (loads text) [
  | none ↦ []
  | some v ↦ elim v [
    | dict top ↦ elim (get "scripts" top) [
      | none ↦ parse_entries top
      | some scripts ↦ parse_entries (fields_of scripts)
    ]
    | _ ↦ []
  ]
]
