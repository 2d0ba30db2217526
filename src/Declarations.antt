-- ===== src/Declarations.antt =====
-- adapter/script_cache.py: what a script declares at its top level (PHASES, STAGES, STAGE_FALLBACK).
-- A tuple or a set of a script is a list here.
pub mod Checked
use image_adapter.Base.{
  ℕ, String, Bool, true, false, not, ◌&&◌, List, [], ◌∷◌, ltb, length, all, elem, distinct,
  is_empty, if◌then◌else◌,
}
use image_adapter.Text.{strip, lower}
use image_adapter.Errors.{Result, ok, err, ◌>>=◌, security_error}
use image_adapter.StageSpec.{is_stage_name}
use image_adapter.Value.{Value, Items, null, list, nil, cons}
use image_adapter.Transport.{text_of}
use image_adapter.Executor.{CompiledScript}

abbrev pub default_phases : List String
default_phases = "request" ∷ "response" ∷ []

abbrev pub known_phases : List String
known_phases = "auth" ∷ "request" ∷ "response" ∷ "poll_request" ∷ "poll_response" ∷ "degraded" ∷ []

abbrev pub max_declared_stages : ℕ
max_declared_stages = 8

-- [str(s).strip() for s in declared]
unfoldable pub names_of : (Value → String) → Items → List String
names_of show nil = []
names_of show (cons v rest) = strip (text_of show v) ∷ names_of show rest

unfoldable pub lowered : List String → List String
lowered [] = []
lowered (name ∷ names) = lower name ∷ lowered names

unfoldable pub check_phases : List String → Result (List String)
check_phases phases =
    if not (all (λ p. elem p known_phases) phases)
    then err security_error
    else if not (all (λ p. elem p phases) default_phases)
    then err security_error
    else ok phases

-- the PHASES of `ScriptCache.load`
unfoldable pub parse_phases : (Value → String) → Value → Result (List String)
unfolding check_phases names_of lowered
parse_phases show null = ok default_phases
parse_phases show (list declared) = check_phases (lowered (names_of show declared))
parse_phases show declared = err security_error

unfoldable pub check_stages : List String → Result (List String)
unfolding is_stage_name
check_stages names =
    if not (all is_stage_name names)
    then err security_error
    else if not (distinct names)
    then err security_error
    else if ltb max_declared_stages (length names)
    then err security_error
    else ok names

-- _parse_stages
unfoldable pub parse_stages : (Value → String) → Value → Result (List String)
unfolding check_stages names_of
parse_stages show null = ok []
parse_stages show (list declared) = check_stages (names_of show declared)
parse_stages show declared = err security_error

-- the checks of `_parse_fallback` on names that are there
unfoldable pub check_fallback : List String → List String → Result (List String)
check_fallback names [] = err security_error
check_fallback names (first ∷ rest) =
    if not (all (λ name. elem name (first ∷ rest)) names)
    then err security_error
    else if elem first names
    then err security_error
    else ok names

-- _parse_fallback
unfoldable pub parse_fallback : (Value → String) → Value → List String → Result (List String)
unfolding check_fallback names_of
parse_fallback show null stages = ok []
parse_fallback show (list declared) stages =
    let names = names_of show declared in
    if is_empty names then ok [] else check_fallback names stages
parse_fallback show declared stages = err security_error

-- the end of `ScriptCache.load`
unfoldable pub declare : (Value → String) → Value → Value → Value → Result CompiledScript
unfolding parse_phases parse_stages parse_fallback
declare show phases_declared stages_declared fallback_declared = do
  phases ← parse_phases show phases_declared
  stages ← parse_stages show stages_declared
  fallback ← parse_fallback show fallback_declared stages
  ok (record { phases = phases; stages = stages; fallback = fallback })
