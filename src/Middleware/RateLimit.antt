-- ===== src/Middleware/RateLimit.antt =====
-- adapter/middleware/rate_limit.py: RateLimitMiddleware. `now` is `time.time()` in milliseconds, and `uptime`
-- the monotonic clock of the state store. `digest` is the start of a SHA-256 in hexadecimal, `show` is `str`.
pub mod Ceiling
pub mod Counting
use Prim.Native.Nat.{◌/◌}
use image_adapter.Base.{
  ℕ, ◌+◌, String, Bool, true, false, not, ◌&&◌, ◌||◌, Option, none, some, List, [], ◌∷◌, ◌++◌,
  Assoc, length, ltb, leb, ◌==◌, lookup, insert, if◌then◌else◌, or_else,
}
use mathlib.Core.List.{reverse}
use image_adapter.Text.{append, blank}
use image_adapter.Settings.{Settings}
use image_adapter.Value.{Value}
use image_adapter.StateStore.{StateStore, Redis, incr_window}

-- a request as the middleware sees it; `client` is the peer's address
pub record Scope : Type 0 where
  pub kind : String
  pub path : String
  pub headers : Assoc String
  pub client : Option String

-- the times of the requests under each key
abbrev pub Counters : Type 0
Counters = Assoc (List ℕ)

abbrev pub most_keys : ℕ
most_keys = 1000

abbrev pub bucket : String → Counters → List ℕ
bucket key counters = or_else (lookup key counters) []

pub record Limiter (St : Type 0) : Type 0 where
  pub counters : Counters
  pub store : Option StateStore
  pub redis : St

-- a request under a key: the count, and the counters, which are cleared when there are too many
unfoldable pub count_locally : String → ℕ → Counters → ℕ × Counters
unfolding lookup insert
count_locally key now counters =
    let times = bucket key counters ++ now ∷ [] in
    let grown = insert key times counters in
    (length times, if ltb most_keys (length grown) then [] else grown)

-- the caller: the credential, or the address
unfoldable pub token_of : Scope → String
unfolding lookup
token_of scope = elim (lookup "authorization" (reverse scope.headers)) [
  | none ↦ or_else scope.client "anon"
  | some credential ↦ if blank credential then or_else scope.client "anon" else credential
]

module _ (digest : String → String) (show : ℕ → String) where
  -- the window of a minute that a time falls into
  abbrev pub key_of : Scope → ℕ → String
  key_of scope now =
      append "ratelimit:" (append (digest (token_of scope)) (append ":" (show (now / 60000))))

  abbrev pub exempt : Settings → Scope → Bool
  exempt settings scope =
      not (scope.kind == "http") || (not settings.rate_limit_enabled || scope.path == "/health")

  module _ (r : Redis) (dumps : Value → String) (loads : String → Option Value) where
    open r use {St}

    -- the count of the shared store, where there is one
    unfoldable pub count_shared : Settings → String → ℕ → Limiter St → Option ℕ × Limiter St
    unfolding incr_window
    count_shared settings key uptime l = elim l.store [
      | none ↦ (none, l)
      | some store ↦
          if blank settings.redis_url
          then (none, l)
          else (let ((count, next), redis) =
                incr_window r dumps loads key 60 uptime store l.redis in
              (count, record l { store = some next; redis = redis }))
    ]

    unfoldable pub or_count : Option ℕ → String → ℕ → Limiter St → ℕ × Limiter St
    unfolding count_locally
    or_count (some count) key now l = (count, l)
    or_count none key now l =
        let (count, counters) = count_locally key now l.counters in
        (count, record l { counters = counters })

    -- RateLimitMiddleware.__call__: whether the request is let through
    unfoldable pub rate_limit : Settings → Scope → ℕ → ℕ → Limiter St → Bool × Limiter St
    unfolding token_of count_shared or_count
    rate_limit settings scope now uptime l =
        let key = key_of scope now in
        let (shared, next) = count_shared settings key uptime l in
        let (count, last) = or_count shared key now next in
        if exempt settings scope
        then (true, l)
        else (leb count settings.rate_limit_per_minute, last)
