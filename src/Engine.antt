-- ===== src/Engine.antt =====
-- The engine's state and its monad. A step of the engine takes a world to a result and a new world:
-- the request context (`ctx`), everything outside the adapter, and a record of what was done, for
-- the theorems: the phases that ran (adapter/context.py, `phase_calls`) and the requests that went
-- out, with how each was answered. `Outside` stands for the script, the vendor and the clock.
use image_adapter.Base.{ℕ, String, Option, List, Assoc}
use image_adapter.Errors.{AdapterError, Result, ok, err, crash}
use image_adapter.Budget.{Budget}
use image_adapter.Float.{Float}
use image_adapter.Value.{Value, Bytes}
use image_adapter.Plan.{RequestPlan, empty_plan}
use image_adapter.Transport.{Request, Stream}

-- adapter/context.py: the part of `ContextCore` that the engine sets or reads.
pub record Ctx : Type 0 where
  pub plan : RequestPlan
  pub upstream_error : Option (String × Option ℕ)
  pub upstream_raw : Option Bytes
  pub budget : Option Budget
  pub stage : Assoc Value

-- How a call of `transform` ends: with a value, past its time, with an AdapterError, or with any
-- other exception.
pub data Outcome : Type 0 where
  returned : Value → Outcome
  overran : Outcome
  raised : AdapterError → Outcome
  failed : Outcome

pub record Response : Type 0 where
  pub status : ℕ
  pub content_type : String
  pub headers : Assoc String
  pub content_length : Option ℕ
  pub body : Stream

-- How an HTTP exchange begins: no answer in time, no connection, or a response.
pub data Exchange : Type 0 where
  no_answer : Exchange
  no_connection : Exchange
  replied : Response → Exchange

-- What the adapter does not implement: the script, the vendor, time, and Python's own `str` and
-- JSON decoder. Each may depend on, and change, a state of its own.
pub record Outside : Type 1 where
  pub St : Type 0
  pub clock : St → ℕ
  pub transform : Ctx → Value → String → St → Outcome × Ctx × St
  pub exchange : Request → Float → St → Exchange × St
  pub sleep : Float → St → St
  pub show : Value → String
  pub loads : Bytes → Option Value

-- A phase of the script that ran, or a request that went out.
pub data Event : Type 0 where
  phase : String → Event
  call : Request → Exchange → Event

pub record World (St : Type 0) : Type 0 where
  pub ctx : Ctx
  pub outside : St
  pub events : List Event

abbrev pub Exec : Type 0 → Type 0 → Type 0
Exec S A = S → Result A × S

abbrev pub proceed : {S A B : Type 0} → Result A → (A → Exec S B) → Exec S B
proceed (ok a) f s = f a s
proceed (err e) f s = (err e, s)
proceed crash f s = (crash, s)

infixl 5 ◌>>=◌ ◌>>◌
abbrev pub ◌>>=◌ : {S A B : Type 0} → Exec S A → (A → Exec S B) → Exec S B
◌>>=◌ m f s = proceed (m s).0 f (m s).1

abbrev pub ◌>>◌ : {S B : Type 0} → Exec S (Unit {0}) → Exec S B → Exec S B
◌>>◌ m k s = proceed (m s).0 (λ _. k) (m s).1

abbrev pub pure : {S A : Type 0} → A → Exec S A
pure a s = (ok a, s)

abbrev pub raise : {S A : Type 0} → AdapterError → Exec S A
raise e s = (err e, s)

abbrev pub gets : {S A : Type 0} → (S → A) → Exec S A
gets f s = (ok (f s), s)

abbrev pub modify : {S : Type 0} → (S → S) → Exec S (Unit {0})
modify f s = (ok tt, f s)

abbrev pub lift : {S A : Type 0} → Result A → Exec S A
lift r s = (r, s)

-- PlanMixin.reset_plan
abbrev pub cleared : {St : Type 0} → World St → World St
cleared w = record w { ctx = record w.ctx { plan = empty_plan } }

abbrev pub reset_plan : {St : Type 0} → Exec (World St) (Unit {0})
reset_plan = modify cleared
