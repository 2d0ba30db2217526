-- ===== src/MiddlewareTests.antt =====
-- The theorems on the middleware, at concrete inputs.
use image_adapter.Base.{
  ℕ, zero, suc, ap, ◌≤◌, ◌-◌, String, false, true, Option, none, some, List, [], ◌∷◌, lookup,
  length, ◌≡◌, refl, arith,
}
use image_adapter.Value.{ℤ, pos, Value, dict, end}
use image_adapter.Settings.{Settings}
use image_adapter.StateStore.{Redis}
use image_adapter.Sample.{settings}
use image_adapter.Middleware.BodyLimit
use image_adapter.Middleware.BodyLimit.{
  Message, request, start, App, finish, receive, send, plain, body_limit,
}
use image_adapter.Middleware.BodyLimit.Guarded.{Guarded, body_limit-Guarded}
use image_adapter.Middleware.RateLimit
use image_adapter.Middleware.RateLimit.{
  Counters, most_keys, bucket, Limiter, exempt, key_of, rate_limit,
}
use image_adapter.Middleware.RateLimit.Ceiling.{
  Arrival, new_keys, through, through-le, rate_limit_reset,
}

abbrev tight : Settings
tight = record settings { max_request_bytes = 3 }

abbrev int_of : String → Option ℤ
int_of text = some (pos 2)

-- an application that reads twice and answers
abbrev reader : App
reader = receive (λ first. receive (λ second. send (start 200) finish))

abbrev messages : List Message
messages = request (1 ∷ 2 ∷ []) ∷ request (3 ∷ 4 ∷ []) ∷ []

abbrev post : BodyLimit.Scope
post = record { kind = "http"; headers = ("content-length", "2") ∷ [] }

body_limit-Guarded_example :
    Guarded int_of 3 post reader messages (body_limit int_of tight post reader messages)
body_limit-Guarded_example = body_limit-Guarded int_of tight post reader messages refl (omega arith)

abbrev digest : String → String
digest token = token

abbrev show : ℕ → String
show n = "0"

abbrev broken : Redis
broken = record {
  St = ℕ;
  redis_get = λ key st. (none, st);
  redis_set = λ key text ttl st. (false, st);
  redis_incr = λ key ttl st. (none, st);
}

abbrev dumps : Value → String
dumps value = "{}"

abbrev loads : String → Option Value
loads text = some (dict end)

abbrev request_of : String → Arrival
request_of credential = record {
  scope = record {
    kind = "http";
    path = "/v1/images/generations";
    headers = ("authorization", credential) ∷ [];
    client = none;
  };
  now = 5;
  uptime = 5;
}

abbrev limiter : Limiter ℕ
limiter = record { counters = []; store = none; redis = 0 }

abbrev arrivals : List Arrival
arrivals = request_of "a" ∷ request_of "b" ∷ request_of "a" ∷ request_of "a" ∷ []

two_keys : new_keys digest show broken dumps loads settings [] arrivals ≡ 2
unfolding new_keys RateLimit.token_of lookup
two_keys = refl

through-le_example :
    through digest show broken dumps loads settings "ratelimit:a:0" arrivals limiter
    ≤ settings.rate_limit_per_minute - length (bucket "ratelimit:a:0" limiter.counters)
through-le_example =
    through-le digest show broken dumps loads settings "ratelimit:a:0" arrivals limiter refl
      (omega (arith, two_keys))

-- a table of n keys, each with three requests
full_of : ℕ → Counters
full_of zero = []
full_of (suc n) = ("other", 1 ∷ 2 ∷ 3 ∷ []) ∷ full_of n

length-full_of : (n : ℕ) → length (full_of n) ≡ n
unfolding full_of
length-full_of zero = refl
length-full_of (suc n) = ap suc (length-full_of n)

full_of_fresh : (n : ℕ) → lookup "ratelimit:new:0" (full_of n) ≡ none
unfolding full_of lookup
full_of_fresh zero = refl
full_of_fresh (suc n) = full_of_fresh n

abbrev full : Limiter ℕ
full = record { counters = full_of 1000; store = none; redis = 0 }

new_counts : exempt digest show settings (request_of "new").scope ≡ false
new_counts = refl

new_key : key_of digest show (request_of "new").scope 5 ≡ "ratelimit:new:0"
unfolding RateLimit.token_of lookup
new_key = refl

rate_limit_reset_example :
    (rate_limit digest show broken dumps loads settings
      (request_of "a").scope
      5
      5
      (rate_limit digest show broken dumps loads settings (request_of "new").scope 5 5 full).1).0
    ≡ true
rate_limit_reset_example =
    rate_limit_reset digest show broken dumps loads settings (request_of "new") (request_of "a")
      full refl new_counts (rw new_key (full_of_fresh 1000)) (length-full_of 1000) (omega arith)
