-- ===== src/Scripts/Store.antt =====
-- adapter/scriptstore/base.py: ChainStore. A backend answers a ref with a text, with None, or raises;
-- what it reads does not change within one lookup.
pub mod Precedence
use image_adapter.Base.{
  String, Bool, true, false, not, Option, none, some, List, [], ◌∷◌, ◌==◌, if◌then◌else◌,
}
use image_adapter.Text.{blank, append, partition}
use image_adapter.Errors.{Result, ok, err, ◌>>=◌, script_source_error}
use image_adapter.Scripts.Ref.{ParsedRef}
use image_adapter.Scripts.Manifest.{stable_alias, version_of}

pub record ServedScript : Type 0 where
  pub text : String
  pub requested : String
  pub served : String

abbrev pub degraded : ServedScript → Bool
degraded s = not (s.served == s.requested)

-- ScriptStore
abbrev pub ScriptStore : Type 0
ScriptStore = ParsedRef → Result (Option String)

-- what a backend's answer means: a hit, or the next one
abbrev pub or_next : Option String → Result (Option String) → Result (Option String)
or_next (some text) rest = ok (some text)
or_next none rest = rest

-- ChainStore._first_hit
unfoldable pub first_hit : List ScriptStore → ParsedRef → Result (Option String)
first_hit [] ref = ok none
first_hit (backend ∷ backends) ref = backend ref >>= λ found. or_next found (first_hit backends ref)

-- _stable_ref
unfoldable pub stable_ref : ParsedRef → Option ParsedRef
unfolding partition
stable_ref ref =
    if blank (version_of ref)
    then none
    else if version_of ref == stable_alias
    then none
    else some (record {
      raw = append (partition b'@' ref.raw).head (append "@" stable_alias);
      parts = ref.parts;
      version = some stable_alias;
    })

abbrev pub served_as : ParsedRef → ParsedRef → String → ServedScript
served_as ref found text = record { text = text; requested = ref.raw; served = found.raw }

abbrev pub found_as : ParsedRef → ParsedRef → Option String → Result (Option ServedScript)
found_as ref found none = ok none
found_as ref found (some text) = ok (some (served_as ref found text))

abbrev pub fall_back :
    List ScriptStore → ParsedRef → Option ParsedRef → Result (Option ServedScript)
fall_back backends ref none = ok none
fall_back backends ref (some fallback) = first_hit backends fallback >>= found_as ref fallback

abbrev pub hit_or_fall_back :
    List ScriptStore → ParsedRef → Option String → Result (Option ServedScript)
hit_or_fall_back backends ref (some text) = ok (some (served_as ref ref text))
hit_or_fall_back backends ref none = fall_back backends ref (stable_ref ref)

-- ChainStore._serve
unfoldable pub serve : List ScriptStore → ParsedRef → Result (Option ServedScript)
unfolding first_hit stable_ref
serve backends ref = first_hit backends ref >>= hit_or_fall_back backends ref

abbrev pub or_not_found : Option ServedScript → Result ServedScript
or_not_found none = err (script_source_error "script_not_found")
or_not_found (some served) = ok served

-- ChainStore.load
unfoldable pub load : List ScriptStore → ParsedRef → Result ServedScript
unfolding serve
load backends ref = serve backends ref >>= or_not_found
