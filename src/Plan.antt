-- ===== src/Plan.antt =====
-- adapter/ctxapi/plan.py: the outbound overrides that a script declares by `ctx.emit`. The parts in
-- `files` are taken as normalised already.
use image_adapter.Base.{String, Bool, true, false, Option, none, some, List, [], ◌∷◌, Assoc, insert}
use image_adapter.Text.{strip, upper}
use image_adapter.Errors.{Result, ok, ◌>>=◌}
use image_adapter.Float.{Float}
use image_adapter.Settings.{Settings}
use image_adapter.UrlGuard.{IpAddress, check_url}
use image_adapter.Value.{Value, null, Fields, Bytes}

-- (filename, bytes, content type)
pub record FilePart : Type 0 where
  pub filename : String
  pub content : Bytes
  pub mime : String

pub record RequestPlan : Type 0 where
  pub url : Option String
  pub method : Option String
  pub headers : Assoc String
  pub query : Assoc String
  pub body : Value
  pub body_set : Bool
  pub form : Option Fields
  pub raw : Option Bytes
  pub files : Option (Assoc (List FilePart))
  pub timeout : Option Float
  pub local_result : Option Bytes

-- RequestPlan()
abbrev pub empty_plan : RequestPlan
empty_plan = record {
  url = none;
  method = none;
  headers = [];
  query = [];
  body = null;
  body_set = false;
  form = none;
  raw = none;
  files = none;
  timeout = none;
  local_result = none;
}

-- The arguments of one call of `ctx.emit`.
pub record Emission : Type 0 where
  pub url : Option String
  pub method : Option String
  pub headers : Assoc String
  pub query : Assoc String
  pub body : Value
  pub form : Option Fields
  pub raw : Option Bytes
  pub files : Option (Assoc (List FilePart))
  pub timeout : Option Float
  pub local_result : Option Bytes

-- d.update(more)
unfoldable pub update {ℓ} : {V : Type ℓ} → Assoc V → Assoc V → Assoc V
update d [] = d
update d ((k, v) ∷ more) = update (insert k v d) more

-- the later of two settings
abbrev pub either {ℓ} : {A : Type ℓ} → Option A → Option A → Option A
either none old = old
either (some a) old = some a

abbrev pub method_of : Option String → Option String
method_of none = none
method_of (some m) = some (upper (strip m))

module _ (ip_address : String → Option IpAddress) where
  unfoldable pub emitted_url : Settings → Option String → Option String → Result (Option String)
  emitted_url settings none old = ok old
  emitted_url settings (some url) old = do
    checked ← check_url ip_address url settings "ctx.emit(url=...)"
    ok (some checked)

  -- PlanMixin.emit
  unfoldable pub emit : Settings → Emission → RequestPlan → Result RequestPlan
  unfolding emitted_url update
  emit settings e plan = do
    url ← emitted_url settings e.url plan.url
    ok (record {
      url = url;
      method = either (method_of e.method) plan.method;
      headers = update plan.headers e.headers;
      query = update plan.query e.query;
      body = elim e.body [ null ↦ plan.body | v ↦ v ];
      body_set = elim e.body [ null ↦ plan.body_set | v ↦ true ];
      form = either e.form plan.form;
      raw = either e.raw plan.raw;
      files = either e.files plan.files;
      timeout = either e.timeout plan.timeout;
      local_result = either e.local_result plan.local_result;
    })
