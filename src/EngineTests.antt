-- ===== src/EngineTests.antt =====
-- The theorems on the engine, on runs of the sample vendor, which refuses the first request.
use image_adapter.Base.{
  ℕ, String, Bool, true, false, Option, none, some, List, [], ◌∷◌, ◌++◌, ◌+◌, ◌*◌, ◌≡◌, refl, Assoc,
  distinct, keys, ◌⊎◌, ◌<◌, ◌≤◌, lookup, length, or_else, ◌==◌,
}
use image_adapter.Text.{lower, blank}
use image_adapter.Errors.{ok}
use image_adapter.Float.{fin}
use image_adapter.Budget.{Budget}
use image_adapter.Value.{Value, Bytes, dict, end, field, int, pos, null}
use image_adapter.Plan.{RequestPlan, empty_plan}
use image_adapter.Channel.{ChannelSpec}
use image_adapter.Transport.{
  Stream, done, chunk, read, too_large, read_capped, Request, build_request, credential, merge_url,
  add_query, text_or,
}
use image_adapter.Transport.Credentials.{
  sent, build_request-header_credential, build_request-query_credential,
}
use image_adapter.Engine.{Event, World}
use image_adapter.PollLoop.{poll_loop}
use image_adapter.Executor.{execute, obtain}
use image_adapter.Executor.Attempts.{Attempts, obtain-Attempts}
use image_adapter.Executor.Run.{Turns, poll_loop-Turns}
use image_adapter.Executor.Order.{IsRun, execute-order}
use image_adapter.Executor.Billing.{calls, most_turns, execute-calls}
use image_adapter.Stages.{StageOutcome, start, run_stages, execute_staged}
use image_adapter.Stages.Degrading.{IsPresentable, execute_staged-IsPresentable}
use image_adapter.Stages.Sending.{run_stages-calls}
use image_adapter.Stages.AuthHeaders.{run_stages-headers}
use image_adapter.Sample.{settings, channel, script, vendor, world}

-- the retry that the vendor's refusal causes
execute_test :
    (execute vendor script channel settings (dict end) none none world).0
    ≡ ok (dict (field "response" (int (pos 2)) end))
unfolding execute image_adapter.ProxyPlan.covers image_adapter.Transport.parse_body
    image_adapter.Text.starts_with image_adapter.Transport.raise_for_status
    image_adapter.Executor.request_was_refused image_adapter.Value.value_eq image_adapter.Value.size
execute_test = refl

execute-order_example :
    (es : List Event) × ((execute vendor script channel settings
        (dict end)
        none
        none
        world).1.events
      ≡ [] ++ es)
    × IsRun script channel 3
        (execute vendor script channel settings (dict end) none none world).0
        es
execute-order_example = execute-order vendor script channel settings (dict end) none none world

execute-calls_example :
    calls (execute vendor script channel settings (dict end) none none world).1.events
    ≤ calls [] + (2 + most_turns channel settings)
execute-calls_example = execute-calls vendor script channel settings (dict end) none none world

obtain-Attempts_example :
    (es : List Event) × ((obtain vendor none channel settings
        (dict end)
        (dict end)
        none
        none
        world).1.events
      ≡ [] ++ es)
    × Attempts vendor channel settings none none none
        (dict end)
        world
        (obtain vendor none channel settings (dict end) (dict end) none none world).0
        es
obtain-Attempts_example =
    obtain-Attempts vendor channel settings none none none (dict end) (dict end) world

poll_loop-Turns_example :
    (es : List Event) × ((poll_loop vendor channel settings none none 0 3 (dict end) world).1.events
      ≡ [] ++ es)
    × Turns 3 (poll_loop vendor channel settings none none 0 3 (dict end) world).0 es
poll_loop-Turns_example = poll_loop-Turns vendor channel settings none none 0 3 (dict end) world

-- a world in which the vendor refuses no more
abbrev accepting : World ℕ
accepting = record world { outside = 1 }

abbrev outcome : StageOutcome
outcome = record {
  payload = dict (field "response:upscale" (int (pos 3)) end);
  degraded = none;
  calls = 2;
}

execute_staged_test :
    (execute_staged vendor script channel settings (dict end) accepting).0 ≡ ok outcome
unfolding execute_staged image_adapter.Budget.exhausted image_adapter.ProxyPlan.covers
    image_adapter.Transport.parse_body image_adapter.Text.starts_with
    image_adapter.Transport.raise_for_status
execute_staged_test = refl

execute_staged-IsPresentable_example :
    IsPresentable vendor script outcome
    × (calls accepting.events + outcome.calls
        ≤ calls (execute_staged vendor script channel settings (dict end) accepting).1.events)
execute_staged-IsPresentable_example =
    execute_staged-IsPresentable vendor script channel settings (dict end) accepting outcome
      execute_staged_test

abbrev two_stages : List String
two_stages = "draw" ∷ "upscale" ∷ []

abbrev budget : Budget
budget = record { total = fin 300000; started = 0 }

run_stages-calls_example :
    calls
      (run_stages vendor script channel settings budget [] two_stages
        (start (dict end))
        world).1.events
    ≤ calls [] + length two_stages * (1 + most_turns channel settings)
run_stages-calls_example =
    run_stages-calls vendor script channel settings budget [] two_stages (start (dict end)) world

run_stages-headers_example :
    run_stages vendor script channel settings budget
      (("Token", "t") ∷ [])
      ("draw" ∷ [])
      (start (dict end))
      world
    ≡ run_stages vendor script channel settings budget [] ("draw" ∷ []) (start (dict end)) world
run_stages-headers_example =
    run_stages-headers vendor script channel settings budget (("Token", "t") ∷ []) ("draw" ∷ [])
      (start (dict end)) world

abbrev content : Bytes
content = 1 ∷ 2 ∷ 3 ∷ []

abbrev stream : Stream
stream = chunk (1 ∷ 2 ∷ []) (chunk (3 ∷ []) done)

read_capped_test : read_capped (some 2) stream 5 ≡ read content
unfolding read_capped
read_capped_test = refl

abbrev keyed : ChannelSpec
keyed = record channel { upstream_key = "secret" }

abbrev in_query : ChannelSpec
in_query = record keyed { auth = record { target = "query"; name = "key"; prefix = "" } }

abbrev raw_plan : RequestPlan
raw_plan = record empty_plan { raw = some (7 ∷ []) }

abbrev request : Request
request = record {
  url = "https://api.example.com/v1";
  method = "POST";
  headers = ("Authorization", "Bearer secret") ∷ [];
  proxy = none;
  content = image_adapter.Transport.raw_content (7 ∷ []);
  payload = dict end;
}

abbrev query_request : Request
query_request = record request { url = "https://api.example.com/v1?key=secret"; headers = [] }

build_test : build_request (λ v. "") keyed raw_plan (dict end) none ≡ ok request
unfolding build_request image_adapter.ProxyPlan.covers lookup image_adapter.Base.insert
    image_adapter.Text.strip
build_test = refl

key_test : blank keyed.upstream_key ≡ false
key_test = refl

name_test : (lower keyed.auth.name == "content-type") ≡ false
unfolding lower
name_test = refl

build_request-header_credential_example :
    lookup keyed.auth.name request.headers
    ≡ sent (some (or_else (lookup keyed.auth.name raw_plan.headers) (credential keyed)))
unfolding keys
build_request-header_credential_example =
    build_request-header_credential (λ v. "") keyed raw_plan (dict end) none request build_test refl
      key_test refl name_test refl

build_query_test : build_request (λ v. "") in_query raw_plan (dict end) none ≡ ok query_request
unfolding build_request lookup image_adapter.Base.insert image_adapter.Url.urlparse
    image_adapter.ProxyPlan.covers image_adapter.Url.urlunparse image_adapter.Url.urlencode
build_query_test = refl

build_request-query_credential_example :
    (base : String) × (merge_url (text_or none in_query.upstream_url) raw_plan ≡ ok base)
    × (add_query base ((in_query.auth.name, credential in_query) ∷ []) ≡ ok query_request.url)
build_request-query_credential_example =
    build_request-query_credential (λ v. "") in_query raw_plan (dict end) none query_request
      (7 ∷ []) build_query_test refl key_test refl
