-- ===== src/ProxyPlan.antt =====
-- adapter/proxyplan.py: which hosts a channel's proxy covers.
pub mod Coverage
use Prim.Native.String.{[]}
use image_adapter.Base.{
  String, Bool, true, false, not, ◌&&◌, ◌||◌, Option, none, some, List, [], ◌∷◌, ◌++◌, ◌==◌,
  if◌then◌else◌, elem, any,
}
use image_adapter.Text.{strip, lower, blank, split, has_char, starts_with, ends_with, drop}
use image_adapter.Errors.{Result, ok, err, channel_config_error, ◌>>=◌}
use image_adapter.Url.{urlparse, hostname}
use image_adapter.ModelMap.{wildcard}

unfoldable pub is_wildcard_shape : String → Bool
is_wildcard_shape pattern =
    let suffix = drop 2 pattern in
    pattern == wildcard
    || (starts_with pattern "*." && not (blank suffix) && not (has_char b'*' suffix))

-- the checks on one pattern, which has been trimmed and lower-cased
unfoldable pub check_pattern : String → String → Result (Unit {0})
unfolding is_wildcard_shape
check_pattern header pattern =
    if not (pattern == wildcard)
      && (has_char b'/' pattern || has_char b':' pattern || has_char b'@' pattern)
    then err (channel_config_error header)
    else if has_char b'*' pattern && not (is_wildcard_shape pattern)
    then err (channel_config_error header)
    else ok tt

unfoldable pub parse_items : String → List String → List String → Result (List String)
parse_items header [] patterns = ok patterns
parse_items header (item ∷ items) patterns =
    let pattern = lower (strip item) in
    let checked =
      check_pattern header pattern >>= λ _. parse_items header items (patterns ++ pattern ∷ []) in
    let skipped = parse_items header items patterns in if blank pattern then skipped else checked

-- tuple(dict.fromkeys(patterns)): the first of each
unfoldable pub dedup : List String → List String → List String
dedup seen [] = []
dedup seen (p ∷ ps) =
    let rest = dedup seen ps in
    let kept = p ∷ dedup (p ∷ seen) ps in if elem p seen then rest else kept

unfoldable pub parse_hosts : String → String → Result (List String)
unfolding parse_items dedup
parse_hosts raw header = do
  patterns ← parse_items header (split b',' raw) []
  ok (dedup [] patterns)

unfoldable pub host_matches : String → String → Bool
host_matches host pattern =
    if pattern == wildcard
    then true
    else if starts_with pattern "*."
    then ends_with (lower host) (drop 1 pattern)
    else lower host == pattern

pub record ProxyPlan : Type 0 where
  pub url : String
  pub bypass : List String

-- ProxyPlan()
abbrev pub direct : ProxyPlan
direct = record { url = ""; bypass = [] }

abbrev pub enabled : ProxyPlan → Bool
enabled plan = not (blank plan.url)

-- `covers` for a target whose host is known
unfoldable pub covers_host : ProxyPlan → String → Bool
covers_host plan host = not (blank host) && not (any (host_matches host) plan.bypass)

-- `none` where `urlparse` raises ValueError
unfoldable pub covers : ProxyPlan → String → Option Bool
unfolding covers_host
covers plan target = if blank plan.url then some false else elim (urlparse target) [
  | none ↦ none
  | some parsed ↦ some (covers_host plan (lower (hostname parsed)))
]
