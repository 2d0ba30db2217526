-- ===== src/CacheTests.antt =====
-- The theorems on the byte cache and on a script's declarations, at concrete ones.
use image_adapter.Base.{some, [], ◌∷◌, ◌≡◌, refl, true, distinct, keys, length, ◌≤◌, arith}
use image_adapter.Errors.{ok}
use image_adapter.Value.{Value, Bytes, list, cons, nil, str, null}
use image_adapter.TtlCache.{TtlCache, get, set}
use image_adapter.TtlCache.Bounded.{total, IsBounded, set-IsBounded}
use image_adapter.TtlCache.Reading.{get-set}
use image_adapter.Executor.{CompiledScript}
use image_adapter.Declarations.{declare, default_phases}
use image_adapter.Declarations.Checked.{IsRunnable, declare-IsRunnable}

-- a full cache of two entries
abbrev cache : TtlCache
cache = record {
  max_entries = 2;
  max_bytes = 4;
  entries = ("a", (10, 1 ∷ 2 ∷ [])) ∷ ("b", (20, 3 ∷ [])) ∷ [];
  bytes = 3;
}

abbrev content : Bytes
content = 7 ∷ 8 ∷ 9 ∷ []

counted : cache.bytes ≡ total cache.entries
unfolding total
counted = refl

different : distinct (keys cache.entries) ≡ true
unfolding keys
different = refl

few : length cache.entries ≤ cache.max_entries
few = omega arith

small : total cache.entries ≤ cache.max_bytes
small = omega (arith, counted)

cache-IsBounded : IsBounded cache
cache-IsBounded = record { counted = counted; different = different; few = few; small = small }

set-IsBounded_example : IsBounded (set "c" content 300 5 cache)
set-IsBounded_example = set-IsBounded "c" content 300 5 cache cache-IsBounded

get-set_example : (get "c" 7 (set "c" content 300 5 cache)).0 ≡ some content
get-set_example =
    get-set "c" content 300 5 7 cache cache-IsBounded (omega arith) (omega arith) (omega arith)

abbrev two_stages : Value
two_stages = list (cons (str "draw") (cons (str " upscale") nil))

abbrev last_stage : Value
last_stage = list (cons (str "upscale") nil)

abbrev accepted : CompiledScript
accepted = record {
  phases = default_phases;
  stages = "draw" ∷ "upscale" ∷ [];
  fallback = "upscale" ∷ [];
}

declare_test : declare (λ v. "") null two_stages last_stage ≡ ok accepted
unfolding declare image_adapter.Text.strip
declare_test = refl

declare-IsRunnable_example : IsRunnable accepted
declare-IsRunnable_example =
    declare-IsRunnable (λ v. "") null two_stages last_stage accepted declare_test
