-- ===== src/Vendors/Context.antt =====
-- What a vendor's script sees of the adapter: the context of its request, which no phase changes, and
-- the state that its phases change. `parked` is the module's own dict `_STATE`, which all requests share;
-- the plan is that of the request. A fan-out does its items in their order: in a run of several, all of
-- them; a serial one stops at a failure (adapter/ctxapi/fanout.py).
use image_adapter.Base.{
  ℕ, String, ◌||◌, Option, none, some, List, [], ◌∷◌, Assoc, eqb, leb, length, remove, insert,
  if◌then◌else◌,
}
use image_adapter.Errors.{AdapterError, Result, ok, err, crash, request_error}
use image_adapter.Errors
use image_adapter.Settings.{Settings}
use image_adapter.Value.{Value, Fields, Items, nil, cons}
use image_adapter.Plan.{RequestPlan, Emission}
use image_adapter.Plan
use image_adapter.Engine.{Exec, proceed}
use image_adapter.Pictures.Codec.{Assets}

pub record ScriptContext : Type 0 where
  pub request_id : String
  pub options : Fields
  pub upstream_url : String
  pub mapped_model : Option String
  pub settings : Settings
  pub show : Value → String

pub record ScriptState (St : Type 0) : Type 0 where
  pub parked : Assoc String
  pub plan : RequestPlan
  pub assets : St

-- ctx.fail with a code and a status
abbrev pub fault : ℕ → String → AdapterError
fault status code = request_error status none code

module _ {St A : Type 0} where
  abbrev pub on_assets : Exec St A → Exec (ScriptState St) A
  on_assets m s = ((m s.assets).0, record s { assets = (m s.assets).1 })

module _ {B : Type 0} where
  -- the loop that raises the first exception among the outcomes
  unfoldable pub first_failure : List (Result B) → Result (List B)
  first_failure [] = ok []
  first_failure (outcome ∷ outcomes) =
      Errors.◌>>=◌ outcome (λ b. Errors.◌>>=◌ (first_failure outcomes) (λ bs. ok (b ∷ bs)))

module _ {S A B : Type 0} where
  unfoldable pub serial : (A → Exec S B) → List A → Exec S (List B)
  serial work [] s = (ok [], s)
  serial work (x ∷ xs) s =
      proceed (work x s).0
        (λ b. λ next.
          proceed (serial work xs next).0 (λ bs. λ last. (ok (b ∷ bs), last))
            (serial work xs next).1)
        (work x s).1

  unfoldable pub run_all : (A → Exec S B) → List A → S → List (Result B) × S
  run_all work [] s = ([], s)
  run_all work (x ∷ xs) s =
      let (outcome, next) = work x s in
      let (outcomes, last) = run_all work xs next in (outcome ∷ outcomes, last)

  -- FanoutMixin.fanout
  unfoldable pub fan_out : ℕ → (A → Exec S B) → List A → Exec S (List B)
  unfolding serial run_all first_failure
  fan_out limit work items s =
      if leb limit 1 || eqb (length items) 1
      then serial work items s
      else (first_failure (run_all work items s).0, (run_all work items s).1)

-- list(items)
abbrev pub values : Items → List Value
values nil = []
values (cons v vs) = v ∷ values vs

module _ {St : Type 0} (a : Assets St) (c : ScriptContext) where
  -- _STATE.pop(ctx.request_id, None)
  abbrev pub unpark : ScriptState St → ScriptState St
  unpark s = record s { parked = remove c.request_id s.parked }

  -- _STATE[ctx.request_id] = requested, where the client asks for a format
  unfoldable pub park : Option String → ScriptState St → ScriptState St
  unfolding insert
  park none s = s
  park (some format) s = record s { parked = insert c.request_id format s.parked }

  abbrev pub with_plan : Result RequestPlan → Exec (ScriptState St) (Unit {0})
  with_plan (ok plan) s = (ok tt, record s { plan = plan })
  with_plan (err error) s = (err error, s)
  with_plan crash s = (crash, s)

  -- ctx.emit
  unfoldable pub emit : Emission → Exec (ScriptState St) (Unit {0})
  emit e s = with_plan (Plan.emit a.ip_address c.settings e s.plan) s
