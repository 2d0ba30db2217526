-- ===== src/StageSpec.antt =====
-- adapter/stage_spec.py: the cascade directives X-Stages, X-Stage-Urls and X-Stage-Timeout.
-- `float_of` is Python's `float(text)`, with `none` for its ValueError.
pub mod Names
use Prim.Native.String.{[]}
use image_adapter.Base.{
  ℕ, String, Bool, true, false, not, ◌&&◌, ◌||◌, Option, none, some, List, [], ◌∷◌, leb, eqb, ◌==◌,
  if◌then◌else◌, elem, all, distinct, is_empty, is_some, Assoc, lookup, insert, keys,
}
use image_adapter.Text.{strip, lower, blank, split, partition, all_chars}
use image_adapter.Errors.{Result, ok, err, channel_config_error, ◌>>=◌, ◌>>◌, refuse_if}
use image_adapter.Float.{Float, le_zero}
use image_adapter.Settings.{Settings}
use image_adapter.UrlGuard.{IpAddress, check_url}

pub record StageSpec : Type 0 where
  pub names : List String
  pub urls : Assoc String
  pub budget : Option Float

-- `[A-Za-z0-9_-]+` matches the whole text
unfoldable pub is_stage_name : String → Bool
unfolding all_chars
is_stage_name name =
    not (blank name)
    && all_chars
        (λ c.
          (leb 65 c && leb c 90)
          || (leb 97 c && leb c 122)
          || (leb 48 c && leb c 57)
          || eqb c b'_'
          || eqb c b'-')
        name

-- [n.strip() for n in tokens if n.strip()]
unfoldable pub trimmed : List String → List String
trimmed [] = []
trimmed (t ∷ ts) = let rest = trimmed ts in if blank (strip t) then rest else strip t ∷ rest

unfoldable pub parse_names : Option String → Result (List String)
unfolding trimmed is_stage_name
parse_names none = ok []
parse_names (some raw) =
    let names = trimmed (split b',' raw) in
    if blank (strip raw) || is_empty names
    then ok []
    else if not (all is_stage_name names)
    then err (channel_config_error "X-Stages")
    else if not (distinct names)
    then err (channel_config_error "X-Stages")
    else ok names

-- the loop of `_parse_budget`: it returns at the first token that is not blank
unfoldable pub parse_total : (String → Option Float) → List String → Result (Option Float)
parse_total float_of [] = ok none
parse_total float_of (token ∷ rest) =
    let pair = partition b'=' (strip token) in
    let later = parse_total float_of rest in
    if blank (strip token)
    then later
    else if not (lower (strip pair.head) == "total")
    then err (channel_config_error "X-Stage-Timeout")
    else elim (float_of (strip pair.tail)) [
      | none ↦ err (channel_config_error "X-Stage-Timeout")
      | some x ↦ if le_zero x then err (channel_config_error "X-Stage-Timeout") else ok (some x)
    ]

unfoldable pub parse_budget : (String → Option Float) → Option String → Result (Option Float)
unfolding parse_total le_zero
parse_budget float_of none = ok none
parse_budget float_of (some raw) =
    if blank (strip raw) then ok none else parse_total float_of (split b',' raw)

module _ (ip_address : String → Option IpAddress) (settings : Settings) where
  -- the checks on one `name=url` pair, and the entry that it adds
  unfoldable pub add_url : String → Bool → String → Assoc String → Result (Assoc String)
  add_url name sep value urls =
      if not sep || blank name || blank (strip value)
      then err (channel_config_error "X-Stage-Urls")
      else if not (is_stage_name name)
      then err (channel_config_error "X-Stage-Urls")
      else if is_some (lookup name urls)
      then err (channel_config_error "X-Stage-Urls")
      else (do
        url ← check_url ip_address (strip value) settings "X-Stage-Urls"
        ok (insert name url urls))

  unfoldable pub add_urls : List String → Assoc String → Result (Assoc String)
  unfolding add_url
  add_urls [] urls = ok urls
  add_urls (token ∷ rest) urls =
      let pair = partition b'=' (strip token) in
      let skipped = add_urls rest urls in
      let added = add_url (strip pair.head) pair.found pair.tail urls >>= add_urls rest in
      if blank (strip token) then skipped else added

  unfoldable pub parse_urls : Option String → Result (Assoc String)
  unfolding add_urls
  parse_urls none = ok []
  parse_urls (some raw) = if blank (strip raw) then ok [] else add_urls (split b',' raw) []

  -- StageSpec.parse
  unfoldable pub parse : (String → Option Float) → (String → Option String) → Result StageSpec
  unfolding parse_names parse_urls parse_budget
  parse float_of headers = do
    names ← parse_names (headers "x-stages")
    urls ← parse_urls (headers "x-stage-urls")
    budget ← parse_budget float_of (headers "x-stage-timeout")
    refuse_if
        (not (is_empty names) && not (is_empty urls) && not (all (λ k. elem k names) (keys urls)))
        (channel_config_error "X-Stage-Urls")
    ok (record { names = names; urls = urls; budget = budget })
