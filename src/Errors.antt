-- ===== src/Errors.antt =====
-- adapter/errors.py: the error model. An error is kept as what the client can tell it by: the HTTP
-- status, the OpenAI error type, the parameter and the code; `upstream_status` is the vendor's
-- status, and `detail` the variable part of a message (a vendor's text, a phase or a stage name).
-- The fixed wording of messages is left out.
use image_adapter.Base.{ℕ, String, Bool, true, false, Option, none, some, ◌≡◌, refl}

pub record AdapterError : Type 0 where
  pub status : ℕ
  pub err_type : String
  pub param : Option String
  pub code : String
  pub upstream_status : Option ℕ
  pub detail : String

-- A call that may raise. `crash` is an exception that is no AdapterError; the application's handler
-- answers it with 500 and the code `internal_error`.
pub data Result {ℓ} (A : Type ℓ) : Type ℓ where
  ok : A → Result A
  err : AdapterError → Result A
  crash : Result A

infixl 5 ◌>>=◌ ◌>>◌
abbrev pub ◌>>=◌ {ℓ μ} : {X : Type ℓ} {Y : Type μ} → Result X → (X → Result Y) → Result Y
crash >>= next = crash
err raised >>= next = err raised
ok value >>= next = next value

abbrev pub ◌>>◌ {ℓ} : {Y : Type ℓ} → Result (Unit {0}) → Result Y → Result Y
first >> second = first >>= λ nothing. second

-- `if test: raise e`
abbrev pub refuse_if : Bool → AdapterError → Result (Unit {0})
refuse_if true e = err e
refuse_if false e = ok tt

-- The inversion of a successful bind.
pub >>=-eq-ok {ℓ μ} :
    {X : Type ℓ} {Y : Type μ} (first : Result X) (next : X → Result Y) {y : Y}
    → (first >>= next) ≡ ok y
    → (x : X) × (first ≡ ok x) × (next x ≡ ok y)
>>=-eq-ok crash next h = cc
>>=-eq-ok (err raised) next h = cc
>>=-eq-ok (ok x) next h = (x, refl, h)

-- The same with the value as a variable, for long chains.
pub >>=-inversion {ℓ κ μ} :
    {A : Type ℓ} {B : Type κ} {C : Type μ} (m : Result A) (f : A → Result B) {b : B}
    → (m >>= f) ≡ ok b
    → ((a : A) → m ≡ ok a → f a ≡ ok b → C)
    → C
>>=-inversion (ok a) f h k = k a refl h
>>=-inversion (err e) f h k = absurd (cc)
>>=-inversion crash f h k = absurd (cc)

-- A bind of a bind, and binds that agree.
module _ {A B C : Type 0} where
  pub >>=-assoc :
      (m : Result A) (f : A → Result B) (g : B → Result C)
      → ((m >>= f) >>= g) ≡ (m >>= λ a. f a >>= g)
  >>=-assoc (ok a) f g = refl
  >>=-assoc (err e) f g = refl
  >>=-assoc crash f g = refl

pub >>=-cong {ℓ κ} :
    {A : Type ℓ} {B : Type κ} (m : Result A) {f g : A → Result B}
    → ((a : A) → f a ≡ g a)
    → (m >>= f) ≡ (m >>= g)
>>=-cong (ok a) h = h a
>>=-cong (err e) h = refl
>>=-cong crash h = refl

-- The inversion of a check that passed.
pub refuse_if-eq-ok {ℓ} :
    {A : Type ℓ} (b : Bool) (e : AdapterError) (m : Result A) {a : A}
    → (refuse_if b e >> m) ≡ ok a
    → (b ≡ false) × (m ≡ ok a)
refuse_if-eq-ok true e m h = absurd (cc)
refuse_if-eq-ok false e m h = (refl, h)

abbrev pub server_error : ℕ → String → String → AdapterError
server_error status code detail = record {
  status = status;
  err_type = "server_error";
  param = none;
  code = code;
  upstream_status = none;
  detail = detail;
}

abbrev pub request_error : ℕ → Option String → String → AdapterError
request_error status param code = record {
  status = status;
  err_type = "invalid_request_error";
  param = param;
  code = code;
  upstream_status = none;
  detail = "";
}

-- InvalidRequestError
abbrev pub invalid_request : String → AdapterError
invalid_request param = request_error 400 (some param) "invalid_request"

-- InvalidRequestError with code="unsupported_parameter"
abbrev pub unsupported : String → AdapterError
unsupported param = request_error 400 (some param) "unsupported_parameter"

-- PayloadTooLargeError
abbrev pub payload_too_large : AdapterError
payload_too_large = request_error 413 none "request_too_large"

-- ChannelConfigError
abbrev pub channel_config_error : String → AdapterError
channel_config_error header = request_error 400 (some header) "channel_config_error"

-- ScriptSourceError
abbrev pub script_source_error : String → AdapterError
script_source_error code = request_error 400 none code

-- ScriptPolicyError
abbrev pub script_policy_error : AdapterError
script_policy_error = request_error 403 none "script_forbidden"

-- SecurityError
abbrev pub security_error : AdapterError
security_error = request_error 400 none "script_security_error"

-- ScriptRuntimeError
abbrev pub script_runtime_error : String → AdapterError
script_runtime_error phase = server_error 500 "script_runtime_error" phase

-- ScriptTimeoutError
abbrev pub script_timeout_error : String → AdapterError
script_timeout_error phase = server_error 504 "script_timeout" phase

-- UpstreamError
abbrev pub upstream_error : String → ℕ → Option ℕ → String → AdapterError
upstream_error code status upstream_status detail = record {
  status = status;
  err_type = "upstream_error";
  param = none;
  code = code;
  upstream_status = upstream_status;
  detail = detail;
}

-- PollTimeoutError
abbrev pub poll_timeout_error : AdapterError
poll_timeout_error = server_error 504 "poll_timeout" ""

-- PipelineTimeoutError; `stage` is "" where the code has None
abbrev pub pipeline_timeout_error : String → AdapterError
pipeline_timeout_error stage = server_error 504 "pipeline_budget_exceeded" stage

-- StageTimeoutError
abbrev pub stage_timeout_error : String → AdapterError
stage_timeout_error stage = server_error 504 "stage_timeout" stage

-- RateLimitError
abbrev pub rate_limit_error : AdapterError
rate_limit_error = record {
  status = 429;
  err_type = "rate_limit_error";
  param = none;
  code = "rate_limit_exceeded";
  upstream_status = none;
  detail = "";
}

pub ok-injective : {A : Type 0} {a b : A} → Path (Result A) (ok a) (ok b) → a ≡ b
ok-injective h = cc
